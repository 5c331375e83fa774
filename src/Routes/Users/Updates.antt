-- ===== src/Routes/Users/Updates.antt =====
-- What a change of the profile comes to: update_my_profile of users.rs.
use pichost.Common.{
  ◌≡◌, refl, String, List, [], ◌∷◌, Option, none, some, ok, Bool, true, false, map, if◌then◌else◌,
  arith, sym, ◌∙◌, ap, ap₂,
}
use pichost.Prog.{run, ◌>>=◌, pure}
use pichost.Prog.Laws.{run->>=_inv}
use pichost.Storage.Router.{StorageRouter}
use pichost.TaskQueue.{Uuid}
use pichost.Upload.{AuthUser}
use pichost.Routes.Users.{
  UserRow, UpdateProfileRequest, Numerals, Call, Answer, World, exec, first, is_user, apply_update,
  option_map,
}
use pichost.Routes.Users.Handlers.{
  UserProfile, build_user_profile, fetch_profile_row, or_none, internal,
}
use pichost.Routes.Users.Account.{
  update_my_profile, ensure_backend_exists, ensure_username_available, ensure_email_available,
  serialize_watermark_config, apply_profile_update,
}

-- The rows after the change: one user's row is updated.
abbrev pub changed : Uuid → UpdateProfileRequest → Bool → Option String → World → World
changed id p b v w = record w {
  users = map (λ u. if is_user id u then apply_update p b v w.now u else u) w.users;
}

first-map :
    (id : Uuid) (f : UserRow → UserRow) (us : List UserRow)
    → ((u : UserRow) → (f u).id ≡ u.id)
    → first (is_user id) (map (λ u. if is_user id u then f u else u) us)
      ≡ option_map f (first (is_user id) us)
first-map id f [] h = refl
first-map id f (u ∷ us) h = ground (arith, h u, first-map id f us h)

module _ (numerals : Numerals) (down : Call → Bool) where
  abbrev X : (c : Call) → World → Answer c × World
  X = exec numerals down

  backend_lem :
      (router : StorageRouter) (p : UpdateProfileRequest) (w w' : World) (t : Unit {0})
      → run X (ensure_backend_exists router p) w ≡ (ok t, w')
      → w' ≡ w
  unfolding ensure_backend_exists run
  backend_lem router p w w' t h = ground (arith, h)

  name_lem :
      (id : Uuid) (n : Option String) (w w' : World) (t : Unit {0})
      → run X (ensure_username_available id n) w ≡ (ok t, w')
      → w' ≡ w
  unfolding ensure_username_available run exec
  name_lem id n w w' t h = ground (arith, h)

  email_lem :
      (id : Uuid) (n : Option String) (w w' : World) (t : Unit {0})
      → run X (ensure_email_available id n) w ≡ (ok t, w')
      → w' ≡ w
  unfolding ensure_email_available run exec
  email_lem id n w w' t h = ground (arith, h)

  abbrev wanted : (String → Option String) → Option (Option String) → Bool × Option String
  wanted to_value none = (false, none)
  wanted to_value (some none) = (true, none)
  wanted to_value (some (some c)) = (true, to_value c)

  watermark_lem :
      (to_value : String → Option String) (p : UpdateProfileRequest) (w w' : World)
      (wm : Bool × Option String)
      → run X (serialize_watermark_config to_value p) w ≡ (ok wm, w')
      → (w' ≡ w) × (wm ≡ wanted to_value p.watermark_config)
  unfolding serialize_watermark_config run
  watermark_lem to_value p w w' wm h = ground (arith, h)

  apply_lem :
      (id : Uuid) (p : UpdateProfileRequest) (b : Bool) (v : Option String) (w w' : World)
      (t : Unit {0})
      → run X (apply_profile_update id p b v) w ≡ (ok t, w')
      → w' ≡ changed id p b v w
  unfolding apply_profile_update run exec
  apply_lem id p b v w w' t h = ground (arith, h)

  fetch_lem :
      (id : Uuid) (w w' : World) (o : Option UserRow)
      → run X (fetch_profile_row id) w ≡ (ok o, w')
      → (w' ≡ w) × (o ≡ first (is_user id) w.users)
  unfolding fetch_profile_row run exec
  fetch_lem id w w' o h = ground (arith, h)

  module _ (router : StorageRouter) (to_value : String → Option String)
      (valid : String → Bool) where
    -- The row that is read again after the change is the changed row of the user.
    answered :
        (id : Uuid) (p : UpdateProfileRequest) (b : Bool) (v : Option String) (w : World)
        (row : UserRow)
        → first (is_user id) (changed id p b v w).users ≡ some row
        → (u : UserRow) × (first (is_user id) w.users ≡ some u) × (row ≡ apply_update p b v w.now u)
    answered id p b v w row h =
        let e = first-map id (apply_update p b v w.now) w.users (λ u. refl) in ground (arith, e, h)

    shown :
        (found : Option UserRow) (w w' : World) (profile : UserProfile)
        → run X (or_none internal found >>= λ row. pure (build_user_profile valid row)) w
          ≡ (ok profile, w')
        → (row : UserRow) × (found ≡ some row) × (w' ≡ w) × (profile ≡ build_user_profile valid row)
    unfolding run
    shown none w w' profile h = absurd (cc h)
    shown (some row) w w' profile h = (row, refl, cc h, cc h)

    -- What a change that goes through leaves and answers.
    abbrev pub Updated : Uuid → UpdateProfileRequest → World → World → UserProfile → Type 0
    Updated id p w w' profile =
        (u : UserRow) × (first (is_user id) w.users ≡ some u)
        × (w'
            ≡ changed id p (wanted to_value p.watermark_config).0
                (wanted to_value p.watermark_config).1 w)
        × (profile
            ≡ build_user_profile valid (
                apply_update p (wanted to_value p.watermark_config).0
                  (wanted to_value p.watermark_config).1 w.now u))

    -- When `update_my_profile` answers a profile, whatever calls fail, then the user has a row, the only
    -- change is that this row has the named fields of the request, and the answer shows it.
    pub update_my_profile_lem :
        (user : AuthUser) (p : UpdateProfileRequest) (w w' : World) (profile : UserProfile)
        → run X (update_my_profile router to_value valid user p) w ≡ (ok profile, w')
        → Updated user.id p w w' profile
    unfolding update_my_profile
    update_my_profile_lem user p w w' profile h =
        let G = Updated user.id p w w' profile in
        run->>=_inv X G (ensure_backend_exists router p) _ w w' profile h λ t1 w1 q1 h1.
          run->>=_inv X G (ensure_username_available user.id p.username) _ w1 w' profile h1
            λ t2 w2 q2 h2.
              run->>=_inv X G (ensure_email_available user.id p.email) _ w2 w' profile h2
                λ t3 w3 q3 h3.
                  run->>=_inv X G (serialize_watermark_config to_value p) _ w3 w' profile h3
                    λ wm w4 q4 h4.
                      run->>=_inv X G (apply_profile_update user.id p wm.0 wm.1) _ w4 w' profile h4
                        λ t5 w5 q5 h5.
                          run->>=_inv X G (fetch_profile_row user.id) _ w5 w' profile h5
                            λ found w6 q6 h6.
                              let e1 = backend_lem router p w w1 t1 q1 in
                              let e2 = name_lem user.id p.username w1 w2 t2 q2 in
                              let e3 = email_lem user.id p.email w2 w3 t3 q3 in
                              let (e4, m) = watermark_lem to_value p w3 w4 wm q4 in
                              let e5 = apply_lem user.id p wm.0 wm.1 w4 w5 t5 q5 in
                              let (e6, f) = fetch_lem user.id w5 w6 found q6 in
                              let (row, is, e7, a) = shown found w6 w' profile h6 in
                              let change = λ (b : Bool × Option String) (v : World).
                                changed user.id p b.0 b.1 v in
                              let same : w4 ≡ w = e4 ∙ e3 ∙ e2 ∙ e1 in
                              let left : w5 ≡ change (wanted to_value p.watermark_config) w =
                                e5 ∙ ap₂ change m same in
                              let there : first (is_user user.id)
                                    (change (wanted to_value p.watermark_config) w).users
                                  ≡ some row =
                                sym (ap (λ (v : World). first (is_user user.id) v.users) left)
                                ∙ sym f
                                ∙ is in
                              let (u, is_row, row_is) =
                                answered user.id p (wanted to_value p.watermark_config).0
                                  (wanted to_value p.watermark_config).1 w row there in
                              (u, is_row, e7 ∙ e6 ∙ left, a ∙ ap (build_user_profile valid) row_is)
