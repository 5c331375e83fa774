-- ===== src/Prog/Laws.antt =====
-- Runs of programs against a service.
use pichost.Prog.{Prog, ret, send, run, bind, ◌>>=◌}
use pichost.Common.{◌≡◌, refl, sym, subst, ◌∙◌, ap, ap₂, Result, ok, err}

module _ {C : Type 0} {R : C → Type 0} {D V : Type 0} (handle : (c : C) → D → R c × D)
    (exec : (c : C) → V → R c × V) (view : D → V) where
  -- The service does what `exec` says of the state that `view` shows.
  abbrev pub Implements : Type 0
  Implements =
      (c : C) (d : D)
      → ((handle c d).0 ≡ (exec c (view d)).0) × (view (handle c d).1 ≡ (exec c (view d)).1)

  -- So a whole program's result and final state are what `exec` gives.
  pub run-view :
      {A : Type 0}
      → Implements
      → (p : Prog C R A) (d : D)
      → ((run handle p d).0 ≡ (run exec p (view d)).0)
        × (view (run handle p d).1 ≡ (run exec p (view d)).1)
  unfolding run
  run-view h (ret a) d = (refl, refl)
  run-view h (send c k) d =
      let (same, after) = h c d in
      let (result, state) = run-view h (k (handle c d).0) (handle c d).1 in
      (
        result ∙ ap₂ (λ r v. (run exec (k r) v).0) same after,
        state ∙ ap₂ (λ r v. (run exec (k r) v).1) same after,
      )

module _ {C : Type 0} {R : C → Type 0} {D : Type 0} (handle : (c : C) → D → R c × D) where
  pub run-bind :
      {A B : Type 0} (p : Prog C R A) (f : A → Prog C R B) (d : D)
      → run handle (bind p f) d ≡ run handle (f (run handle p d).0) (run handle p d).1
  unfolding run
  run-bind (ret a) f d = refl
  run-bind (send c k) f d = run-bind (k (handle c d).0) f (handle c d).1

  -- A chain goes on with the result of a step that succeeds.
  pub run->>=_ok :
      {E A B : Type 0} (p : Prog C R (Result E A)) (f : A → Prog C R (Result E B)) (d d' : D)
      (a : A)
      → run handle p d ≡ (ok a, d')
      → run handle (p >>= f) d ≡ run handle (f a) d'
  run->>=_ok {E} {A} p f d d' a e =
      run-bind p _ d
      ∙ ap (λ (r : Result E A × D). run handle (elim r.0 [ ok a ↦ f a | err x ↦ ret (err x) ]) r.1)
          e

  -- It ends with the error of a step that fails.
  pub run->>=_err :
      {E A B : Type 0} (p : Prog C R (Result E A)) (f : A → Prog C R (Result E B)) (d d' : D)
      (x : E)
      → run handle p d ≡ (err x, d')
      → run handle (p >>= f) d ≡ (err x, d')
  unfolding run
  run->>=_err {E} {A} p f d d' x e =
      run-bind p _ d
      ∙ ap (λ (r : Result E A × D). run handle (elim r.0 [ ok a ↦ f a | err y ↦ ret (err y) ]) r.1)
          e

  module _ {κ} {E A B : Type 0} (P : Result E B × D → Type κ) (p : Prog C R (Result E A))
      (f : A → Prog C R (Result E B)) (d : D) where
    after :
        (r : Result E A) (d' : D)
        → run handle p d ≡ (r, d')
        → ((x : E) (d' : D) → run handle p d ≡ (err x, d') → P (err x, d'))
        → ((a : A) (d' : D) → run handle p d ≡ (ok a, d') → P (run handle (f a) d'))
        → P (run handle (p >>= f) d)
    after (ok a) d' e stop go = subst P (sym (run->>=_ok p f d d' a e)) (go a d' e)
    after (err x) d' e stop go = subst P (sym (run->>=_err p f d d' x e)) (stop x d' e)

    -- What holds after a chain: it ends with the error of its first step, or goes on.
    pub run->>=_elim :
        ((x : E) (d' : D) → run handle p d ≡ (err x, d') → P (err x, d'))
        → ((a : A) (d' : D) → run handle p d ≡ (ok a, d') → P (run handle (f a) d'))
        → P (run handle (p >>= f) d)
    run->>=_elim = after (run handle p d).0 (run handle p d).1 refl

  module _ {κ} {E A B : Type 0} (P : Type κ) (p : Prog C R (Result E A))
      (f : A → Prog C R (Result E B)) where
    split :
        (r : Result E A) (d e : D) (b : B)
        → run handle p d ≡ (r, e)
        → (e' : D) → run handle (p >>= f) d ≡ (ok b, e')
        → ((a : A) (d' : D) → run handle p d ≡ (ok a, d') → run handle (f a) d' ≡ (ok b, e') → P)
        → P
    split (ok a) d e b q e' h go = go a e q (sym (run->>=_ok p f d e a q) ∙ h)
    split (err x) d e b q e' h go = absurd (cc (sym (run->>=_err p f d e x q) ∙ h))

    -- Inversion: a chain that succeeds has a first step that does, and a rest that does.
    pub run->>=_inv :
        (d e : D) (b : B)
        → run handle (p >>= f) d ≡ (ok b, e)
        → ((a : A) (d' : D) → run handle p d ≡ (ok a, d') → run handle (f a) d' ≡ (ok b, e) → P)
        → P
    run->>=_inv d e b h go = split (run handle p d).0 d (run handle p d).1 b refl e h go
