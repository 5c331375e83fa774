-- ===== src/Routes/Categories/Cascade.antt =====
-- What a removal with its cascade leaves of a table in which every parent is a root.
use pichost.Common.{
  all-imp, all-imp₂, all-select, all-selected, all-none, any-split, any-imp, any-select, any-append,
  all-append, ℕ, zero, suc, ◌≡◌, refl, List, [], ◌∷◌, ◌++◌, Option, none, some, Bool, true, false,
  not, ◌&&◌, if◌then◌else◌, all, any, select, map, arith, Bool-cases, String, inl, inr,
}
use pichost.TaskQueue.{Uuid}
use pichost.Routes.Categories.{Category, is_own, has_parent, cascade, set_name}

abbrev pub is_root : Category → Bool
is_root r = elim r.parent_id [ none ↦ true | some p ↦ false ]

-- The row is a root, or its parent is a root of the same user in the table.
abbrev pub is_shallow : List Category → Category → Bool
is_shallow rows r = elim r.parent_id [
  | none ↦ true
  | some p ↦ any (λ q. is_own p r.user_id q && is_root q) rows
]

all-cascade :
    (p : Category → Bool) (n : ℕ) (doomed : Category → Bool) (rows : List Category)
    → all p rows ≡ true
    → all p (cascade n doomed rows) ≡ true
unfolding cascade
all-cascade p zero doomed rows h = h
all-cascade p (suc n) doomed rows h = ground (
  arith,
  all-cascade p n (λ r. any (λ q. has_parent q.id r) (select doomed rows))
      (select (λ r. not (doomed r)) rows) (all-select p (λ r. not (doomed r)) rows h),
)

-- Nothing that is doomed is left.
cascade-removes :
    (n : ℕ) (doomed : Category → Bool) (rows : List Category)
    → all (λ r. not (doomed r)) (cascade (suc n) doomed rows) ≡ true
unfolding cascade
cascade-removes n doomed rows = ground (
  arith,
  all-none doomed rows,
  all-cascade (λ r. not (doomed r)) n (λ r. any (λ q. has_parent q.id r) (select doomed rows))
      (select (λ r. not (doomed r)) rows) (all-selected (λ r. not (doomed r)) rows),
)

child-is_root :
    (dead : List Category) (r : Category)
    → is_root r ≡ true
    → any (λ q. has_parent q.id r) dead ≡ false
child-is_root [] r h = refl
child-is_root (q ∷ dead) r h = ground (arith, child-is_root dead r h)

-- A root that is not doomed stays.
any-cascade :
    (p : Category → Bool) (n : ℕ) (doomed : Category → Bool) (rows : List Category)
    → ((r : Category) → p r ≡ true → doomed r ≡ false)
    → ((r : Category) → p r ≡ true → is_root r ≡ true)
    → any p rows ≡ true
    → any p (cascade n doomed rows) ≡ true
unfolding cascade
any-cascade p zero doomed rows f g h = h
any-cascade p (suc n) doomed rows f g h =
    let kept = any-select p (λ r. not (doomed r)) (λ r k. ground (arith, f r k)) rows h in
    ground (
      arith,
      h,
      any-cascade p n (λ r. any (λ q. has_parent q.id r) (select doomed rows))
          (select (λ r. not (doomed r)) rows) (λ r k. child-is_root (select doomed rows) r (g r k))
          g kept,
    )

module _ (n : ℕ) (doomed : Category → Bool) (rows : List Category) where
  abbrev orphaned : Category → Bool
  orphaned r = any (λ q. has_parent q.id r) (select doomed rows)

  abbrev rest : List Category
  rest = select (λ r. not (doomed r)) rows

  -- A row that stays, and that was below a root, still is.
  shallow-stays :
      (r : Category) (o : Option Uuid)
      → r.parent_id ≡ o
      → is_shallow rows r ≡ true
      → not (orphaned r) ≡ true
      → is_shallow (cascade (suc n) orphaned rest) r ≡ true
  shallow-stays r none e h k = ground (arith, e)
  shallow-stays r (some p) e h k =
      let root : Category → Bool = λ q. is_own p r.user_id q && is_root q in
      let found = any-split root doomed rows (ground (arith, e, h)) in
      let gone =
        any-imp root (λ q. has_parent q.id r) (λ q z. ground (arith, e, z)) (select doomed rows) in
      let stays =
        any-cascade root (suc n) orphaned rest
          (λ q z. child-is_root (select doomed rows) q (ground (arith, z)))
          (λ q z. ground (arith, z)) in
      ground (arith, e, found, gone, k, stays)

  pub is_shallow-cascade :
      all (is_shallow rows) rows ≡ true
      → let left = cascade (suc (suc n)) doomed rows in all (is_shallow left) left ≡ true
  unfolding cascade
  is_shallow-cascade h = elim (Bool-cases (any doomed rows)) [
    | inr quiet ↦ rw quiet h
    | inl some_gone ↦ rw some_gone (
        all-imp₂ (is_shallow rows) (λ r. not (orphaned r))
          (is_shallow (cascade (suc n) orphaned rest)) (λ r. shallow-stays r r.parent_id refl)
          (cascade (suc n) orphaned rest)
          (all-cascade (is_shallow rows) (suc n) orphaned rest
            (all-select (is_shallow rows) (λ r. not (doomed r)) rows h))
          (cascade-removes n orphaned rest))
  ]

-- Adding a row keeps the others below their roots.
pub is_shallow-append :
    (rows : List Category) (x : Category)
    → all (is_shallow rows) rows ≡ true
    → is_shallow rows x ≡ true
    → all (is_shallow (rows ++ x ∷ [])) (rows ++ x ∷ []) ≡ true
is_shallow-append rows x h k =
    let grows : (r : Category) → is_shallow rows r ≡ true → is_shallow (rows ++ x ∷ []) r ≡ true =
      λ r z. more r r.parent_id refl z in
    rw (all-append (is_shallow (rows ++ x ∷ [])) rows (x ∷ [])) (
      ground
        (arith, grows x k, all-imp (is_shallow rows) (is_shallow (rows ++ x ∷ [])) grows rows h))
  where
    more :
        (r : Category) (o : Option Uuid)
        → r.parent_id ≡ o
        → is_shallow rows r ≡ true
        → is_shallow (rows ++ x ∷ []) r ≡ true
    more r none e z = ground (arith, e)
    more r (some p) e z =
        ground (arith, e, z, any-append (λ q. is_own p r.user_id q && is_root q) rows (x ∷ []))

-- So does a new name for some of them.
abbrev rename : (Category → Bool) → String → Category → Category
rename p n q = if p q then set_name n q else q

any-rename :
    (p : Category → Bool) (n : String) (i u : Uuid) (rows : List Category)
    → any (λ q. is_own i u q && is_root q) (map (rename p n) rows)
      ≡ any (λ q. is_own i u q && is_root q) rows
any-rename p n i u [] = refl
any-rename p n i u (r ∷ rows) = ground (arith, any-rename p n i u rows)

is_shallow-map :
    (p : Category → Bool) (n : String) (base rows : List Category)
    → all (is_shallow base) rows ≡ true
    → all (is_shallow (map (rename p n) base)) (map (rename p n) rows) ≡ true
is_shallow-map p n base [] h = refl
is_shallow-map p n base (r ∷ rows) h = step r.parent_id refl (is_shallow-map p n base rows)
  where
    step :
        (o : Option Uuid)
        → r.parent_id ≡ o
        → (all (is_shallow base) rows ≡ true
            → all (is_shallow (map (rename p n) base)) (map (rename p n) rows) ≡ true)
        → all (is_shallow (map (rename p n) base)) (map (rename p n) (r ∷ rows)) ≡ true
    step none e ih = ground (arith, e, h, ih)
    step (some q) e ih = ground (arith, e, h, any-rename p n q r.user_id base, ih)

pub is_shallow-rename :
    (p : Category → Bool) (n : String) (rows : List Category)
    → all (is_shallow rows) rows ≡ true
    → all (is_shallow (map (rename p n) rows)) (map (rename p n) rows) ≡ true
is_shallow-rename p n rows h = is_shallow-map p n rows rows h
