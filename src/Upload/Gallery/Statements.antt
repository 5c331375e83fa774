-- ===== src/Upload/Gallery/Statements.antt =====
-- The statements of the listing, their text and their placeholders.
use pichost.Common.{
  ℕ, ◌+◌, ◌-◌, ◌≡◌, refl, ◌⊎◌, String, Option, none, some, Bool, arith, length, eq_iff,
}
use pichost.Storage.{◌⧺◌}
use pichost.TaskQueue.{Uuid}
use pichost.Upload.Gallery.{
  normalize_sort, normalize_order, build_list_sql, list_sql, list_binds, placeholder, filters,
  columns, is_some, has_search, count_if,
}

abbrev pub IsColumn : String → Type 0
IsColumn s = (s ≡ "created_at") ⊎ ((s ≡ "file_size") ⊎ (s ≡ "original_name"))

abbrev pub IsDirection : String → Type 0
IsDirection s = (s ≡ "ASC") ⊎ (s ≡ "DESC")

normalize_sort-IsColumn : (s : String) → IsColumn (normalize_sort s)
unfolding normalize_sort
normalize_sort-IsColumn s =
    ground (arith, eq_iff s "created_at", eq_iff s "file_size", eq_iff s "original_name")

normalize_order-IsDirection : (s : String) → IsDirection (normalize_order s)
unfolding normalize_order
normalize_order-IsDirection s = ground arith

-- Whatever a request asks to sort by, the statement's text is one that is made of fixed column
-- names, directions and three yes-or-no answers.
pub build_list_sql-closed :
    (term : String) (config_id category_id : Option Uuid) (sort order : String)
    → (search config category : Bool) × (col dir : String) × IsColumn col
      × IsDirection dir
      × (build_list_sql term config_id category_id (normalize_sort sort) (normalize_order order)
          ≡ list_sql search config category col dir)
unfolding build_list_sql
build_list_sql-closed term config_id category_id sort order = (
  has_search term,
  is_some config_id,
  is_some category_id,
  _,
  _,
  normalize_sort-IsColumn sort,
  normalize_order-IsDirection order,
  refl,
)

abbrev pub bound : String → Option Uuid → Option Uuid → ℕ
bound term config_id category_id =
    count_if (is_some category_id) (count_if (is_some config_id) (count_if (has_search term) 1)) + 2

length-list_binds :
    (user_id : Uuid) (term : String) (config_id category_id : Option Uuid) (limit offset : ℕ)
    → length (list_binds user_id term config_id category_id limit offset)
      ≡ bound term config_id category_id
unfolding list_binds
length-list_binds user_id term none none limit offset = ground arith
length-list_binds user_id term none (some c) limit offset = ground arith
length-list_binds user_id term (some c) none limit offset = ground arith
length-list_binds user_id term (some c) (some k) limit offset = ground arith

-- The limit and the offset stand in the statement at the places of the last two values that are
-- bound to it, whichever filters are on.
pub build_list_sql-list_binds :
    (user_id : Uuid) (term : String) (config_id category_id : Option Uuid) (limit offset : ℕ)
    (col dir : String)
    → let n = length (list_binds user_id term config_id category_id limit offset) in
      build_list_sql term config_id category_id col dir
      ≡ filters (has_search term) (is_some config_id) (is_some category_id) columns
        ⧺ " ORDER BY "
        ⧺ col
        ⧺ " "
        ⧺ dir
        ⧺ " LIMIT "
        ⧺ placeholder (n - 1)
        ⧺ " OFFSET "
        ⧺ placeholder n
unfolding build_list_sql
build_list_sql-list_binds user_id term config_id category_id limit offset col dir =
    let n =
      count_if (is_some category_id)
        (count_if (is_some config_id) (count_if (has_search term) 1)) in
    let last : n + 2 - 1 ≡ n + 1 = omega arith in
    rw (length-list_binds user_id term config_id category_id limit offset) (rw last refl)
