-- ===== src/Routes/Images/Rows.antt =====
-- Rows that are changed or removed, and what is left of the others.
use pichost.Common.{
  ◌≤◌, ◌≡◌, refl, List, [], ◌∷◌, none, some, Bool, true, false, ◌==◌, arith, length, select, any,
  map,
}
use pichost.TaskQueue.{Uuid}
use pichost.Upload.{UploadResult, from_row}
use pichost.Routes.Images.{Image, gone, has_id, is_owned, first, update}

abbrev pub result_of : Image → UploadResult
result_of r = from_row r.shown

-- An id names one row at most.
abbrev pub IsKeyed : List Image → Type 0
IsKeyed rows = (i : Uuid) → length (select (has_id i) rows) ≤ 1

abbrev pub names : List Uuid → Uuid → Bool
names is j = any (λ i. j == i) is

module _ (is : List Uuid) (p : Image → Bool)
    (within : (r : Image) → p r ≡ true → names is r.shown.id ≡ true) where
  pub gone-other :
      (j : Uuid) (rows : List Image)
      → names is j ≡ false
      → select (has_id j) (gone p rows) ≡ select (has_id j) rows
  gone-other j [] h = refl
  gone-other j (r ∷ rows) h = ground (arith, h, within r, gone-other j rows h)

  pub update-other :
      (f : Image → Image)
      → ((r : Image) → (f r).shown.id ≡ r.shown.id)
      → (j : Uuid) (rows : List Image) → names is j ≡ false
      → select (has_id j) (update p f rows) ≡ select (has_id j) rows
  update-other f same j [] h = refl
  update-other f same j (r ∷ rows) h =
      ground (arith, h, within r, same r, update-other f same j rows h)

module _ (p : Image → Bool) where
  pub gone-IsKeyed : (rows : List Image) → IsKeyed rows → IsKeyed (gone p rows)
  gone-IsKeyed rows h i = omega (arith, h i, fewer i rows)
    where
      fewer :
          (i : Uuid) (rows : List Image)
          → length (select (has_id i) (gone p rows)) ≤ length (select (has_id i) rows)
      fewer i [] = omega arith
      fewer i (r ∷ rows) = ground (arith, fewer i rows)

  module _ (f : Image → Image) where
    pub update-IsKeyed :
        ((r : Image) → (f r).shown.id ≡ r.shown.id)
        → (rows : List Image) → IsKeyed rows
        → IsKeyed (update p f rows)
    update-IsKeyed same rows h i = rw (count rows) (h i)
      where
        count :
            (rows : List Image)
            → length (select (has_id i) (update p f rows)) ≡ length (select (has_id i) rows)
        count [] = refl
        count (r ∷ rows) = ground (arith, same r, count rows)

    pub update_none :
        (rows : List Image) → (length (select p rows) == 0) ≡ true → update p f rows ≡ rows
    update_none [] h = refl
    update_none (r ∷ rows) h = ground (arith, h, update_none rows)

    pub first-update :
        ((r : Image) → p (f r) ≡ p r)
        → (rows : List Image) → first p (update p f rows) ≡ none
        → (length (select p rows) == 0) ≡ true
    first-update same [] h = refl
    first-update same (r ∷ rows) h = ground (arith, h, same r, first-update same rows)

select_none :
    (i : Uuid) (rows : List Image)
    → length (select (has_id i) rows) ≤ 0
    → select (has_id i) rows ≡ []
select_none i [] h = refl
select_none i (r ∷ rows) h = ground (arith, h, select_none i rows)

pub first-current :
    (i u : Uuid) (rows : List Image) (r : Image)
    → IsKeyed rows
    → first (is_owned i u) rows ≡ some r
    → map result_of (select (has_id i) rows) ≡ result_of r ∷ []
first-current i u [] r keyed h = absurd (ground (arith, h))
first-current i u (x ∷ rows) r keyed h =
    ground (
      arith,
      h,
      keyed i,
      select_none i rows,
      first-current i u rows r (λ k. ground (arith, keyed k)),
    )
