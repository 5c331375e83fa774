-- ===== src/Prog/Costs.antt =====
-- What a program spends, whatever the answers to its calls, and how much a run adds to a measure of
-- the service's state.
use pichost.Common.{
  ℕ, ◌+◌, ◌-◌, ◌≤◌, ◌≡◌, List, [], ◌∷◌, Bool, true, false, Result, ok, err, arith, subst,
}
use pichost.Prog.{Prog, ret, send, bind, join, run, ◌>>=◌}

module _ {C : Type 0} {R : C → Type 0} (cost : C → ℕ) where
  -- Along every path the costs of the calls add up to `budget` at most.
  unfoldable pub Costs : {A : Type 0} → ℕ → Prog C R A → Type 0
  Costs budget (ret a) = Unit
  Costs budget (send c k) = (cost c ≤ budget) × ((r : R c) → Costs (budget - cost c) (k r))

  pub Costs-mono : {A : Type 0} (a b : ℕ) (p : Prog C R A) → a ≤ b → Costs a p → Costs b p
  unfolding Costs
  Costs-mono a b (ret x) h k = tt
  Costs-mono a b (send c f) h (small, k) =
      (omega arith, λ r. Costs-mono (a - cost c) (b - cost c) (f r) (omega arith) (k r))

  pub Costs-bind :
      {A B : Type 0} (a b : ℕ) (p : Prog C R A) (f : A → Prog C R B)
      → Costs a p
      → ((x : A) → Costs b (f x))
      → Costs (a + b) (bind p f)
  unfolding Costs
  Costs-bind a b (ret x) f h k = Costs-mono b (a + b) (f x) (omega arith) (k x)
  Costs-bind a b (send c g) f (small, h) k = (
    omega arith,
    λ r.
        let e : a - cost c + b ≡ a + b - cost c = omega arith in
        subst (λ n. Costs n (bind (g r) f)) e (Costs-bind (a - cost c) b (g r) f (h r) k),
  )

  pub Costs-map :
      {A B : Type 0} (a : ℕ) (p : Prog C R A) (f : A → B)
      → Costs a p
      → Costs a (bind p λ x. ret (f x))
  unfolding Costs
  Costs-map a p f h =
      let e : a + 0 ≡ a = omega arith in
      subst (λ n. Costs n (bind p λ x. ret (f x))) e (Costs-bind a 0 p (λ x. ret (f x)) h (λ x. tt))

  go_on :
      {E A B : Type 0} (b : ℕ) (f : A → Prog C R (Result E B))
      → ((x : A) → Costs b (f x))
      → (r : Result E A) → Costs b (elim r [ ok x ↦ f x | err x ↦ ret (err x) ])
  unfolding Costs
  go_on b f k (ok x) = k x
  go_on b f k (err x) = tt

  -- A chain in which only the first part, or only what follows, spends anything.
  pub Costs-then_free :
      {E A B : Type 0} (a : ℕ) (p : Prog C R (Result E A)) (f : A → Prog C R (Result E B))
      → Costs a p
      → ((x : A) → Costs 0 (f x))
      → Costs a (p >>= f)
  unfolding Costs
  Costs-then_free a p f h k =
      let e : a + 0 ≡ a = omega arith in
      subst (λ n. Costs n (p >>= f)) e (Costs-bind a 0 p _ h (go_on 0 f k))

  pub Costs-after_free :
      {E A B : Type 0} (b : ℕ) (p : Prog C R (Result E A)) (f : A → Prog C R (Result E B))
      → Costs 0 p
      → ((x : A) → Costs b (f x))
      → Costs b (p >>= f)
  unfolding Costs
  Costs-after_free b p f h k =
      let e : 0 + b ≡ b = omega arith in
      subst (λ n. Costs n (p >>= f)) e (Costs-bind 0 b p _ h (go_on b f k))

  -- Two programs that run at the same time spend what they spend, whatever the schedule.
  pub Costs-join :
      {A B : Type 0} (turns : List Bool) (a b : ℕ) (p : Prog C R A) (q : Prog C R B)
      → Costs a p
      → Costs b q
      → Costs (a + b) (join turns p q)
  unfolding Costs join
  Costs-join [] a b p q h k =
      Costs-bind a b p (λ x. bind q λ y. ret (x, y)) h λ x. Costs-map b q (λ y. (x, y)) k
  Costs-join (true ∷ turns) a b (ret x) q h k =
      Costs-mono b (a + b) (bind q λ y. ret (x, y)) (omega arith) (Costs-map b q (λ y. (x, y)) k)
  Costs-join (true ∷ turns) a b (send c g) q (small, h) k = (
    omega arith,
    λ r.
        let e : a - cost c + b ≡ a + b - cost c = omega arith in
        subst (λ n. Costs n (join turns (g r) q)) e
          (Costs-join turns (a - cost c) b (g r) q (h r) k),
  )
  Costs-join (false ∷ turns) a b p (ret y) h k =
      Costs-mono a (a + b) (bind p λ x. ret (x, y)) (omega arith) (Costs-map a p (λ x. (x, y)) h)
  Costs-join (false ∷ turns) a b p (send c g) h (small, k) = (
    omega arith,
    λ r.
        let e : a + (b - cost c) ≡ a + b - cost c = omega arith in
        subst (λ n. Costs n (join turns p (g r))) e
          (Costs-join turns a (b - cost c) p (g r) h (k r)),
  )

  module _ {V : Type 0} (exec : (c : C) → V → R c × V) (measure : V → ℕ)
      (adds : (c : C) (v : V) → measure (exec c v).1 ≤ measure v + cost c) where
    pub run-Costs :
        {A : Type 0} (b : ℕ) (p : Prog C R A) (v : V)
        → Costs b p
        → measure (run exec p v).1 ≤ measure v + b
    unfolding Costs run
    run-Costs b (ret a) v h = omega arith
    run-Costs b (send c k) v (small, h) =
        omega
          (arith, adds c v, run-Costs (b - cost c) (k (exec c v).0) (exec c v).1 (h (exec c v).0))
