-- ===== src/Prog.antt =====
-- Programs that talk to a service. The code awaits one call after the other on a database, a Redis
-- server or a storage backend; such a function is a tree of the calls that it makes, and of what it
-- does with each answer. What the service answers is not part of a program.
pub mod Laws
pub mod Costs
use pichost.Common.{ℕ, zero, suc, List, [], ◌∷◌}
use pichost.Common.{Result, ok, err, Bool, true, false}

-- `C` are the calls, `R c` the answers to the call `c`, `A` the result.
pub data Prog (C : Type 0) (R : C → Type 0) (A : Type 0) : Type 0 where
  ret : A → Prog C R A
  send : (c : C) → (R c → Prog C R A) → Prog C R A

module _ {C : Type 0} {R : C → Type 0} where
  abbrev pub bind : {A B : Type 0} → Prog C R A → (A → Prog C R B) → Prog C R B
  bind (ret a) f = f a
  bind (send c k) f = send c (λ r. bind (k r) f)

  -- `await` on one call.
  abbrev pub call : (c : C) → Prog C R (R c)
  call c = send c ret

  -- A run against a service that is a function of the call and of its own state.
  unfoldable pub run : {A D : Type 0} → ((c : C) → D → R c × D) → Prog C R A → D → A × D
  run handle (ret a) d = (a, d)
  run handle (send c k) d = run handle (k (handle c d).0) (handle c d).1

  -- One call of a program that still runs.
  unfoldable pub advance :
      {A D : Type 0} → ((c : C) → D → R c × D) → Prog C R A → D → Prog C R A × D
  advance handle (ret a) d = (ret a, d)
  advance handle (send c k) d = (k (handle c d).0, (handle c d).1)

  -- The program at a place of a pool makes one call; at a place out of range nothing happens.
  unfoldable pub turn :
      {A D : Type 0} → ((c : C) → D → R c × D) → ℕ → List (Prog C R A) → D → List (Prog C R A) × D
  unfolding advance
  turn handle n [] d = ([], d)
  turn handle zero (p ∷ ps) d = ((advance handle p d).0 ∷ ps, (advance handle p d).1)
  turn handle (suc n) (p ∷ ps) d = let rest = turn handle n ps d in (p ∷ rest.0, rest.1)

  -- Programs that run at the same time: each entry of the schedule gives one of them a call. A
  -- program that the schedule forgets has crashed or hangs.
  unfoldable pub interleave :
      {A D : Type 0}
      → ((c : C) → D → R c × D)
      → List ℕ
      → List (Prog C R A)
      → D
      → List (Prog C R A) × D
  interleave handle [] ps d = (ps, d)
  interleave handle (n ∷ ns) ps d =
      interleave handle ns (turn handle n ps d).0 (turn handle n ps d).1

  -- `tokio::join!`: both programs run to their ends, and the schedule says whose call comes next.
  unfoldable pub join : {A B : Type 0} → List Bool → Prog C R A → Prog C R B → Prog C R (A × B)
  join [] p q = bind p λ a. bind q λ b. ret (a, b)
  join (true ∷ turns) (send c k) q = send c λ r. join turns (k r) q
  join (true ∷ turns) (ret a) q = bind q λ b. ret (a, b)
  join (false ∷ turns) p (send c k) = send c λ r. join turns p (k r)
  join (false ∷ turns) p (ret b) = bind p λ a. ret (a, b)

  -- `?` on a `Result`: the functions of the source that return one.
  infixl 5 ◌>>=◌ ◌>>◌
  abbrev pub ◌>>=◌ :
      {E A B : Type 0} → Prog C R (Result E A) → (A → Prog C R (Result E B)) → Prog C R (Result E B)
  m >>= f = bind m λ r. elim r [ ok a ↦ f a | err e ↦ ret (err e) ]

  abbrev pub ◌>>◌ :
      {E B : Type 0}
      → Prog C R (Result E (Unit {0}))
      → Prog C R (Result E B)
      → Prog C R (Result E B)
  m >> k = m >>= λ _. k

  abbrev pub pure : {E A : Type 0} → A → Prog C R (Result E A)
  pure a = ret (ok a)

  abbrev pub throw : {E A : Type 0} → E → Prog C R (Result E A)
  throw e = ret (err e)
