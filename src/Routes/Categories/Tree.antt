-- ===== src/Routes/Categories/Tree.antt =====
-- The tree of a user's categories, and the handler that lists it.
use pichost.Common.{
  ℕ, ◌+◌, ◌≡◌, refl, String, List, [], ◌∷◌, Option, none, some, Bool, true, false, ◌&&◌, ◌==◌,
  if◌then◌else◌, all, any, arith, any-imp, ok, err, ◌≤◌, not,
}
use pichost.Prog.{ret, send}
use pichost.TaskQueue.{Uuid}
use pichost.Routes.Categories.{
  Category, is_own, has_parent, Handler, select_categories, internal_error_detail,
}
use pichost.Routes.Categories.Cascade.{is_shallow, is_root}

-- `Vec<CategoryTreeNode>` is a type of its own, for the recursion.
mutual
  pub data CategoryTreeNode : Type 0 where
    node :
        (id : Uuid) (name : String) (parent_id : Option Uuid) (children : Nodes) → CategoryTreeNode

  pub data Nodes : Type 0 where
    nil : Nodes
    cons : CategoryTreeNode → Nodes → Nodes

unfoldable pub build_children : Uuid → List Category → Nodes
build_children parent_id [] = nil
build_children parent_id (c ∷ cs) =
    let rest = build_children parent_id cs in
    if has_parent parent_id c then cons (node c.id c.name (some parent_id) nil) rest else rest

-- The loop over `categories`, with the whole list for the children.
abbrev build_roots : List Category → List Category → Nodes
build_roots all [] = nil
build_roots all (cat ∷ cats) =
    let rest = build_roots all cats in
    if is_root cat then cons (node cat.id cat.name none (build_children cat.id all)) rest else rest

unfoldable pub build_tree : List Category → Nodes
unfolding build_children
build_tree categories = build_roots categories categories

unfoldable pub list_categories : Uuid → Handler Nodes
unfolding build_tree
list_categories user = send (select_categories user) λ rows. ret (elim rows [
  | ok categories ↦ ok (build_tree categories)
  | err e ↦ err (internal_error_detail e)
])

-- How often an id stands in a tree, on any level.
unfoldable mutual
  pub count_node : Uuid → CategoryTreeNode → ℕ
  count_node x (node id name parent children) = (if id == x then 1 else 0) + count x children

  pub count : Uuid → Nodes → ℕ
  count x nil = 0
  count x (cons n ns) = count_node x n + count x ns

-- How many rows pass a test.
abbrev pub tally : (Category → Bool) → List Category → ℕ
tally p [] = 0
tally p (r ∷ rows) = (if p r then 1 else 0) + tally p rows

abbrev pub has_id : Uuid → Category → Bool
has_id x r = r.id == x

module _ (x : Uuid) where
  count-build_children :
      (p : Uuid) (rows : List Category)
      → count x (build_children p rows) ≡ tally (λ r. has_parent p r && has_id x r) rows
  unfolding count build_children
  count-build_children p [] = refl
  count-build_children p (r ∷ rows) = ground (arith, count-build_children p rows)

  abbrev is_root_above : Category → Category → Bool
  is_root_above r c = is_root c && has_parent c.id r

  -- The rows with the id `x`, once for each root above them.
  abbrev crossing : List Category → List Category → ℕ
  crossing cats [] = 0
  crossing cats (r ∷ rows) =
      let more = crossing cats rows in
      (if has_id x r then tally (is_root_above r) cats else 0) + more

  crossing-nil : (rows : List Category) → crossing [] rows ≡ 0
  crossing-nil [] = refl
  crossing-nil (r ∷ rows) = ground (arith, crossing-nil rows)

  crossing-cons :
      (c : Category) (cats rows : List Category)
      → crossing (c ∷ cats) rows
        ≡ (if is_root c then tally (λ r. has_parent c.id r && has_id x r) rows else 0)
          + crossing cats rows
  crossing-cons c cats [] = ground arith
  crossing-cons c cats (r ∷ rows) = ground (arith, crossing-cons c cats rows)

  count-build_roots :
      (rows cats : List Category)
      → count x (build_roots rows cats)
        ≡ tally (λ c. is_root c && has_id x c) cats + crossing cats rows
  unfolding count
  count-build_roots rows [] = ground (arith, crossing-nil rows)
  count-build_roots rows (c ∷ cats) = ground (
    arith,
    count-build_children c.id rows,
    crossing-cons c cats rows,
    count-build_roots rows cats,
  )

  tally-split :
      (rows : List Category)
      → tally (λ r. is_root r && has_id x r) rows + tally (λ r. not (is_root r) && has_id x r) rows
        ≡ tally (has_id x) rows
  tally-split [] = ground arith
  tally-split (r ∷ rows) = ground (arith, tally-split rows)

tally-le :
    (p q : Category → Bool)
    → ((r : Category) → p r ≡ true → q r ≡ true)
    → (rows : List Category) → tally p rows ≤ tally q rows
tally-le p q f [] = omega arith
tally-le p q f (r ∷ rows) = ground (arith, f r, tally-le p q f rows)

tally-any : (p : Category → Bool) (rows : List Category) → any p rows ≡ true → 1 ≤ tally p rows
tally-any p [] h = absurd (ground (arith, h))
tally-any p (r ∷ rows) h = ground (arith, tally-any p rows)

tally-never :
    (p : Category → Bool)
    → ((r : Category) → p r ≡ false)
    → (rows : List Category) → tally p rows ≡ 0
tally-never p f [] = refl
tally-never p f (r ∷ rows) = ground (arith, f r, tally-never p f rows)

module _ (table : List Category) (unique : (y : Uuid) → tally (has_id y) table ≤ 1) where
  -- Exactly one root is above a row that is not a root.
  one_root :
      (r : Category) (o : Option Uuid)
      → r.parent_id ≡ o
      → is_shallow table r ≡ true
      → tally (λ c. is_root c && has_parent c.id r) table ≡ (if is_root r then 0 else 1)
  one_root r none e h =
      ground
        (arith, e, tally-never (λ c. is_root c && has_parent c.id r) (λ c. ground (arith, e)) table)
  one_root r (some p) e h =
      let above : Category → Bool = λ c. is_root c && has_parent c.id r in
      let few = tally-le above (has_id p) (λ c k. ground (arith, e, k)) table in
      let own =
        any-imp (λ q. is_own p r.user_id q && is_root q) above (λ q k. ground (arith, e, k)) table
          (ground (arith, e, h)) in
      ground (arith, e, few, unique p, tally-any above table own)

  crossing-once :
      (x : Uuid) (rows : List Category)
      → all (is_shallow table) rows ≡ true
      → crossing x table rows ≡ tally (λ r. not (is_root r) && has_id x r) rows
  crossing-once x [] h = refl
  crossing-once x (r ∷ rows) h =
      ground (arith, h, one_root r r.parent_id refl, crossing-once x rows)

  -- When every category of the list is a root or below a root of its user, and no two have an id
  -- in common, the tree shows every category of the list exactly once, and nothing else.
  pub count-build_tree :
      (x : Uuid)
      → all (is_shallow table) table ≡ true
      → count x (build_tree table) ≡ tally (has_id x) table
  unfolding build_tree
  count-build_tree x h =
      omega (arith, count-build_roots x table table, crossing-once x table h, tally-split x table)
