-- ===== src/TaskQueue/Lists.antt =====
-- Lists of tasks and the lists of their ids.
use mathlib.Core.Option
use pichost.Common.{
  ◌≡◌, refl, sym, inl, inr, List, [], ◌∷◌, ◌++◌, map, some, none, Option, All, ◌≢◌, arith,
  Option-cases, All-left, All-right, All-append, String, subst,
}
use pichost.Redis.{pop_last, erase_first, snoc_view}
use pichost.TaskQueue.{Uuid, TaskPayload, Codec}
use pichost.TaskQueue.Keys.{show_uuid-eq}
use pichost.TaskQueue.Jobs.{id_text, DistinctIds, HasId, HasOtherId, remove_id}

module _ (c : Codec) where
  abbrev both_texts : List TaskPayload × TaskPayload → List String × String
  both_texts p = (map (id_text c) p.0, id_text c p.1)

  snoc_view-map :
      (t : TaskPayload) (o : Option (List TaskPayload × TaskPayload))
      → snoc_view (id_text c t) (Option.map both_texts o) ≡ Option.map both_texts (snoc_view t o)
  snoc_view-map t none = refl
  snoc_view-map t (some (ts, u)) = refl

  -- What waits, split at its oldest task.
  pub pop_last-map :
      (ts : List TaskPayload) → pop_last (map (id_text c) ts) ≡ Option.map both_texts (pop_last ts)
  unfolding pop_last
  pop_last-map [] = refl
  pop_last-map (t ∷ ts) = rw (pop_last-map ts) (snoc_view-map t (pop_last ts))

  pub erase_first-map :
      (u : Uuid) (ts : List TaskPayload)
      → erase_first (c.show_uuid u) (map (id_text c) ts) ≡ map (id_text c) (remove_id u ts)
  unfolding erase_first remove_id
  erase_first-map u [] = refl
  erase_first-map u (t ∷ ts) = ground (arith, show_uuid-eq c t.task_id u, erase_first-map u ts)

snoc_view-append :
    (t : TaskPayload) (o : Option (List TaskPayload × TaskPayload)) (ts rest : List TaskPayload)
    (u : TaskPayload)
    → ((r : List TaskPayload) → o ≡ some (r, u) → ts ≡ r ++ u ∷ [])
    → (o ≡ none → ts ≡ [])
    → snoc_view t o ≡ some (rest, u)
    → t ∷ ts ≡ rest ++ u ∷ []
snoc_view-append t none ts rest u h k e = ground (arith, k refl)
snoc_view-append t (some (r, v)) ts rest u h k e = ground (arith, h r)

pop_last-none : (ts : List TaskPayload) → pop_last ts ≡ none → ts ≡ []
unfolding pop_last
pop_last-none [] e = refl
pop_last-none (t ∷ ts) e = ground (arith, Option-cases (pop_last ts))

pub pop_last-append :
    (ts rest : List TaskPayload) (u : TaskPayload)
    → pop_last ts ≡ some (rest, u)
    → ts ≡ rest ++ u ∷ []
unfolding pop_last
pop_last-append [] rest u e = cc
pop_last-append (t ∷ ts) rest u e =
    snoc_view-append t (pop_last ts) ts rest u (λ r. pop_last-append ts r u) (pop_last-none ts) e

pub All-remove_id :
    (P : TaskPayload → Type 0) (u : Uuid) (ts : List TaskPayload)
    → All P ts
    → All P (remove_id u ts)
unfolding remove_id
All-remove_id P u [] h = tt
All-remove_id P u (t ∷ ts) (p, h) = ground (arith, All-remove_id P u ts h)

pub remove_id-distinct :
    (u : Uuid) (xs ys : List TaskPayload)
    → DistinctIds (xs ++ ys)
    → DistinctIds (xs ++ remove_id u ys)
unfolding remove_id
remove_id-distinct u [] [] d = tt
remove_id-distinct u [] (y ∷ ys) (other, d) =
    ground (arith, remove_id-distinct u [] ys d, All-remove_id (HasOtherId y.task_id) u ys other)
remove_id-distinct u (x ∷ xs) ys (other, d) = (
  All-append (HasOtherId x.task_id) xs _ (All-left (HasOtherId x.task_id) xs ys other)
      (All-remove_id (HasOtherId x.task_id) u ys (All-right (HasOtherId x.task_id) xs ys other)),
  remove_id-distinct u xs ys d,
)

not_HasId : (u : Uuid) (ts : List TaskPayload) → All (HasOtherId u) ts → ¬ HasId u ts
not_HasId u [] h k = k
not_HasId u (t ∷ ts) (other, h) (inl same) = other same
not_HasId u (t ∷ ts) (other, h) (inr later) = not_HasId u ts h later

pub HasId-append : (u : Uuid) (xs ys : List TaskPayload) → HasId u ys → HasId u (xs ++ ys)
HasId-append u [] ys h = h
HasId-append u (x ∷ xs) ys h = inr (HasId-append u xs ys h)

-- Once a task with distinct id is removed, no other task has its id.
pub remove_id-fresh :
    (u : Uuid) (xs ys : List TaskPayload)
    → DistinctIds (xs ++ ys)
    → HasId u ys
    → All (HasOtherId u) (xs ++ remove_id u ys)
unfolding remove_id
remove_id-fresh u [] [] d h = elim h [ ]
remove_id-fresh u [] (y ∷ ys) (other, d) (inl same) =
    let rest : All (HasOtherId u) ys = subst (λ w. All (HasOtherId w) ys) same other in
    ground (arith, rest)
remove_id-fresh u [] (y ∷ ys) (other, d) (inr later) =
    let different : y.task_id ≢ u =
      λ same. not_HasId y.task_id ys other (subst (λ w. HasId w ys) (sym same) later) in
    ground (arith, different, remove_id-fresh u [] ys d later)
remove_id-fresh u (x ∷ xs) ys (other, d) h = (
  λ same.
      not_HasId x.task_id (xs ++ ys) other
        (subst (λ w. HasId w (xs ++ ys)) (sym same) (HasId-append u xs ys h)),
  remove_id-fresh u xs ys d h,
)
