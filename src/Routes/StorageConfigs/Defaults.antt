-- ===== src/Routes/StorageConfigs/Defaults.antt =====
-- The default configuration of a user.
use pichost.Common.{
  ℕ, ◌≡◌, refl, ap₂, String, List, [], ◌∷◌, some, true, false, ◌==◌, arith, map, any, if◌then◌else◌,
}
use pichost.Prog.{run}
use pichost.TaskQueue.{Uuid}
use pichost.Routes.StorageConfigs.{
  ConfigRow, Tables, Outside, effect, belongs_to, is_own, is_taken, find, update, clear_default,
  to_default,
}
use pichost.Routes.StorageConfigs.Handlers.{
  set_default, fetch_user_config, unset_other_defaults, build_response,
}

-- The user's rows are no default, except one.
abbrev pub chosen : Uuid → Uuid → ℕ → ConfigRow → ConfigRow
chosen u i now r =
    if belongs_to u r then if r.id == i then to_default now r else clear_default r else r

find-clear :
    (i u : Uuid) (rows : List ConfigRow) (r : ConfigRow)
    → find (is_own i u) rows ≡ some r
    → find (is_own i u) (update (belongs_to u) clear_default rows) ≡ some (clear_default r)
find-clear i u [] r h = absurd (ground (arith, h))
find-clear i u (x ∷ rows) r h = ground (arith, h, find-clear i u rows r)

none_taken :
    (i u : Uuid) (n : String) (rows : List ConfigRow)
    → any (is_taken i u n false) rows ≡ false
    → any (is_taken i u n true) (update (belongs_to u) clear_default rows) ≡ false
none_taken i u n [] h = refl
none_taken i u n (x ∷ rows) h = ground (arith, h, none_taken i u n rows)

choose_row :
    (i u : Uuid) (now : ℕ) (x : ConfigRow)
    → (let y = (if belongs_to u x then clear_default x else x) in
        if is_own i u y then to_default now y else y)
      ≡ chosen u i now x
choose_row i u now x = ground arith

update-update :
    (i u : Uuid) (now : ℕ) (rows : List ConfigRow)
    → update (is_own i u) (to_default now) (update (belongs_to u) clear_default rows)
      ≡ map (chosen u i now) rows
update-update i u now [] = refl
update-update i u now (x ∷ rows) =
    ap₂ (λ y ys. y ∷ ys) (choose_row i u now x) (update-update i u now rows)

module _ (outside : Outside) where
  -- When no statement fails, a user who chooses one of their configurations as the default has
  -- exactly this default afterwards; the rows of other users are as they were. (The names of a
  -- user's configurations are different, as the table's unique key demands.)
  pub set_default-chosen :
      (user id : Uuid) (t : Tables) (r : ConfigRow)
      → find (is_own id user) t.rows ≡ some r
      → any (is_taken id user r.name false) t.rows ≡ false
      → (run (effect outside) (set_default user id) t).1.rows ≡ map (chosen user id t.now) t.rows
  unfolding set_default fetch_user_config unset_other_defaults build_response run effect
  set_default-chosen user id t r own names = ground (
    arith,
    own,
    find-clear id user t.rows r own,
    none_taken id user r.name t.rows names,
    update-update id user t.now t.rows,
  )
