-- ===== src/Routes/Categories/Examples.antt =====
-- A user's categories "a" and, below it, "b".
use pichost.Common.{
  ℕ, ◌+◌, ◌≤◌, ◌≡◌, ◌≢◌, refl, List, [], ◌∷◌, Option, none, some, Bool, false, ok, err, arith,
  String,
}
use pichost.Prog.{run}
use pichost.Routes.{other}
use pichost.Routes.Categories.{
  Category, Call, Answer, Table, exec, validate_depth, hung, create_category, cascade,
  select_category, select_categories, insert_category, rename_category, remove_category,
  update_category, delete_category,
}
use pichost.Routes.Categories.Depth.{
  Operation, create, update, delete, perform_all, IsForest, perform_all-IsForest,
  validate_depth-ends,
}
use pichost.Routes.Categories.Tree.{build_tree, count, tally, has_id, count-build_tree}

abbrev empty : Table
empty = record { rows = []; next_id = 10; now = 7 }

abbrev no_failure : Call → Bool
no_failure c = false

abbrev requests : List (Operation × (Call → Bool))
requests =
    (create 1 (record { name = " a "; parent_id = none }), no_failure)
    ∷ (create 1 (record { name = "b"; parent_id = some 10 }), no_failure)
    ∷ (create 1 (record { name = "c"; parent_id = some 11 }), no_failure)
    ∷ (update 1 10 (some "A"), no_failure)
    ∷ []

abbrev row : ℕ → String → Option ℕ → Category
row i n p = record { id = i; user_id = 1; name = n; parent_id = p; created_at = 7 }

abbrev two : List Category
two = row 10 "A" none ∷ row 11 "b" (some 10) ∷ []

-- The third level is refused.
two_levels : (perform_all requests empty).rows ≡ two
unfolding run create_category update_category exec validate_depth
two_levels = refl

-- A removal takes the children along.
none_left : (perform_all ((delete 1 10, no_failure) ∷ []) (perform_all requests empty)).rows ≡ []
unfolding run create_category update_category delete_category exec validate_depth cascade
none_left = refl

perform_all-IsForest_example : IsForest (perform_all requests empty)
unfolding IsForest
perform_all-IsForest_example = perform_all-IsForest requests empty refl

two_unique : (y : ℕ) → tally (has_id y) two ≤ 1
two_unique y = ground arith

count-build_tree_example : count 11 (build_tree two) ≡ 1
count-build_tree_example = count-build_tree two two_unique 11 refl

-- A database whose categories are their own parents.
abbrev circle : (c : Call) → ℕ → Answer c × ℕ
circle (select_category i u) n = (ok (some (row i "o" (some i))), n + 1)
circle (select_categories u) n = (ok [], n)
circle (insert_category u m p) n = (err (other "off"), n)
circle (rename_category m i u) n = (err (other "off"), n)
circle (remove_category i u) n = (err (other "off"), n)

validate_depth-ends_example : (run circle (validate_depth 2 1 5 1) 0).0 ≢ err hung
validate_depth-ends_example = validate_depth-ends circle 2 1 5 1 0 (omega arith) (omega arith)
