-- ===== src/Upload/Gallery/Paging.antt =====
-- The pages of a listing.
use pichost.Common.{
  ℕ, zero, suc, ◌+◌, ◌-◌, ◌*◌, ◌/◌, ◌%◌, ◌^◌, ◌≤◌, ◌<◌, ◌≡◌, ap, ◌↔◌, arith, min, ◌==◌, false,
}
use native.Mathlib.Nat.{lt-div-mul-add, div-mul-le_self, suc-mul}
use pichost.Upload.Gallery.{ImageListQuery, page_of, per_page_of, offset_of, calc_total_pages}

-- Every request is served between 1 and 100 items a page, from a page of at least 1.
pub page_bounds :
    (q : ImageListQuery) → (1 ≤ page_of q) × (1 ≤ per_page_of q) × (per_page_of q ≤ 100)
unfolding page_of per_page_of
page_bounds q = (omega arith, omega arith, omega arith)

pub mod-eq-self_iff : (a : ℕ) → (a % 2 ^ 32 ≡ a) ↔ (a < 2 ^ 32)
mod-eq-self_iff a = (λ e. omega arith, λ h. omega arith)

-- The offset is that of the page exactly if it fits `u32`.
pub offset_of-exact_iff :
    (q : ImageListQuery)
    → (offset_of q ≡ (page_of q - 1) * per_page_of q) ↔ ((page_of q - 1) * per_page_of q < 2 ^ 32)
unfolding offset_of
offset_of-exact_iff q = mod-eq-self_iff ((page_of q - 1) * per_page_of q)

ceil_bounds : (n p : ℕ) → 1 ≤ p → (n ≤ (n + p - 1) / p * p) × ((n + p - 1) / p * p < n + p)
ceil_bounds n p h = (
  omega (arith, lt-div-mul-add {a = n + p - 1} {b = p} h),
  omega (arith, div-mul-le_self (n + p - 1) p),
)

step_below : (c p n : ℕ) → c * p < n + p → 0 < n → (c - 1) * p < n
step_below zero p n h pos = omega arith
step_below (suc c) p n h pos = let e : suc c - 1 ≡ c = omega arith in rw e (omega arith)

ceil_le : (c p n : ℕ) → 1 ≤ p → c * p < n + p → c ≤ n
ceil_le zero p n h k = omega arith
ceil_le (suc c) p n h k = grind arith

near : (c p n : ℕ) → (c - 1) * p < n → n < 2 ^ 32 → c * p < 2 ^ 32 + p
near zero p n h k = omega arith
near (suc c) p n h k =
    let e : suc c - 1 ≡ c = omega arith in omega (arith, e, suc-mul c p, ap (λ m. m * p) e)

-- For at least one and fewer than `2^32` items and a positive page size, the pages that are
-- announced hold all items, and the last of them holds at least one.
pub calc_total_pages_bounds :
    (total per_page : ℕ)
    → 1 ≤ per_page
    → 0 < total
    → total < 2 ^ 32
    → let pages = calc_total_pages total per_page in
      (total ≤ pages * per_page) × ((pages - 1) * per_page < total)
unfolding calc_total_pages
calc_total_pages_bounds total per_page h pos small =
    let (enough, tight) = ceil_bounds total per_page h in
    let c = (total + per_page - 1) / per_page in
    let fits : min (2 ^ 32 - 1) c ≡ c = omega (arith, ceil_le c per_page total h tight) in
    let some_items : (total == 0) ≡ false = ground arith in
    rw some_items (rw fits (enough, step_below c per_page total tight pos))

pub pages_fit :
    (total per_page : ℕ)
    → 1 ≤ per_page
    → total < 2 ^ 32
    → let pages = calc_total_pages total per_page in
      (total ≤ pages * per_page) × (pages * per_page < 2 ^ 32 + per_page)
unfolding calc_total_pages
pages_fit zero per_page h small =
    let one : 1 * per_page ≡ per_page = omega arith in rw one (omega arith, omega arith)
pages_fit (suc total) per_page h small =
    let (enough, tight) = calc_total_pages_bounds (suc total) per_page h (omega arith) small in
    (enough, near (calc_total_pages (suc total) per_page) per_page (suc total) tight small)
