-- ===== src/Routes/StorageConfigs/Owned.antt =====
-- How many configurations a user has, and what a call adds to them.
use pichost.Common.{
  ℕ, ◌+◌, ◌≤◌, ◌≡◌, refl, List, [], ◌∷◌, ◌++◌, Option, none, some, Bool, not, ◌==◌, arith, select,
  length, if◌then◌else◌, inl, inr, Bool-cases,
}
use pichost.TaskQueue.{Uuid}
use pichost.Routes.StorageConfigs.{
  ConfigRow, Tables, Call, Outside, exec, effect, belongs_to, is_own, update, count_configs,
  name_exists, unset_defaults, select_config, select_configs, insert_config, set_config,
  count_images, delete_row, make_default, get_repo, draw_nonce, new_row, exec_update, clear_default,
  set_values, to_default, find, failure, or_failure,
}

abbrev pub owned : Uuid → Tables → ℕ
owned v t = length (select (belongs_to v) t.rows)

-- The configurations of a user that a call adds.
abbrev pub added : Uuid → Call → ℕ
added v (insert_config u n p b d) = if u == v then 1 else 0
added v _ = 0

owned-update :
    (v : Uuid) (p : ConfigRow → Bool) (f : ConfigRow → ConfigRow) (rows : List ConfigRow)
    → ((r : ConfigRow) → (f r).user_id ≡ r.user_id)
    → length (select (belongs_to v) (update p f rows)) ≡ length (select (belongs_to v) rows)
owned-update v p f [] h = refl
owned-update v p f (r ∷ rows) h = ground (arith, h r, owned-update v p f rows h)

owned-select :
    (v : Uuid) (p : ConfigRow → Bool) (rows : List ConfigRow)
    → length (select (belongs_to v) (select p rows)) ≤ length (select (belongs_to v) rows)
owned-select v p [] = omega arith
owned-select v p (r ∷ rows) = ground (arith, owned-select v p rows)

owned-append :
    (v : Uuid) (r : ConfigRow) (rows : List ConfigRow)
    → length (select (belongs_to v) (rows ++ r ∷ []))
      ≡ length (select (belongs_to v) rows) + (if r.user_id == v then 1 else 0)
owned-append v r [] = ground arith
owned-append v r (x ∷ rows) = ground (arith, owned-append v r rows)

owned-exec_update :
    (v : Uuid) (f : ConfigRow → ConfigRow) (i u : Uuid) (o : Option ConfigRow) (t : Tables)
    → ((r : ConfigRow) → (f r).user_id ≡ r.user_id)
    → owned v (exec_update f i u o t).1 ≡ owned v t
owned-exec_update v f i u none t h = refl
owned-exec_update v f i u (some r) t h = ground (arith, owned-update v (is_own i u) f t.rows h)

owned-or_failure :
    {A : Type 0} (outside : Outside) (v k : ℕ) (o : Option A) (done : A × Tables) (t : Tables)
    → owned v done.1 ≤ owned v t + k
    → owned v (or_failure outside o done t).1 ≤ owned v t + k
owned-or_failure outside v k none done t h = h
owned-or_failure outside v k (some a) done t h = omega arith

module _ (outside : Outside) (v : Uuid) where
  effect-adds : (c : Call) (t : Tables) → owned v (effect outside c t).1 ≤ owned v t + added v c
  unfolding effect
  effect-adds (count_configs u) t = omega arith
  effect-adds (name_exists u n) t = omega arith
  effect-adds (unset_defaults u) t =
      omega (arith, owned-update v (belongs_to u) clear_default t.rows (λ r. refl))
  effect-adds (select_config i u) t = omega arith
  effect-adds (select_configs u) t = omega arith
  effect-adds (insert_config u n p b d) t =
      ground (arith, owned-append v (new_row u n p b d t) t.rows)
  effect-adds (set_config n d i u) t = omega (
    arith,
    owned-exec_update v (set_values n d t.now) i u (find (is_own i u) t.rows) t (λ r. refl),
  )
  effect-adds (count_images i u) t = omega arith
  effect-adds (delete_row i u) t = ground (arith, owned-select v (λ r. not (is_own i u r)) t.rows)
  effect-adds (make_default i u) t =
      omega
        (arith, owned-exec_update v (to_default t.now) i u (find (is_own i u) t.rows) t (λ r. refl))
  effect-adds (get_repo url token) t = omega arith
  effect-adds draw_nonce t = omega arith

  pub exec-adds : (c : Call) (t : Tables) → owned v (exec outside c t).1 ≤ owned v t + added v c
  unfolding exec
  exec-adds c t = elim (Bool-cases (outside.down c)) [
    | inl fails ↦ rw fails (
        owned-or_failure outside v (added v c) (failure outside c) (effect outside c t) t
          (effect-adds c t))
    | inr works ↦ rw works (effect-adds c t)
  ]
