-- ===== src/TaskQueue/Keys.antt =====
-- The Redis keys and id texts of tasks.
use text.Mathlib.TextLemmas.{append_cancel_left}
use pichost.Common.{
  ◌≡◌, sym, ap, ◌∙◌, Result, ok, ◌=ₛ◌, ◌==◌, eq_iff, arith, String, Bool-cases, inl, inr, eq_refl,
}
use pichost.TaskQueue.{Uuid, Codec, key_prefix, task_key}

ok-injective : {A : Type 0} {a b : A} → ◌≡◌ {A = Result String A} (ok a) (ok b) → a ≡ b
ok-injective e = cc

module _ (c : Codec) where
  pub show_uuid-injective : (u w : Uuid) → c.show_uuid u ≡ c.show_uuid w → u ≡ w
  show_uuid-injective u w e =
      ok-injective (sym (c.parse-show u) ∙ ap c.parse_uuid e ∙ c.parse-show w)

  pub task_key-injective : (u w : Uuid) → task_key c u ≡ task_key c w → u ≡ w
  unfolding task_key
  task_key-injective u w e =
      show_uuid-injective u w (append_cancel_left key_prefix (c.show_uuid u) (c.show_uuid w) e)

  pub task_key-eq : (u w : Uuid) → (task_key c u =ₛ task_key c w) ≡ (u == w)
  task_key-eq u w = elim (Bool-cases (u == w)) [
    | inl same ↦ let e : u ≡ w = ground arith in rw e (rw eq_refl (ground arith))
    | inr other ↦ ground (arith, eq_iff (task_key c u) (task_key c w), task_key-injective u w)
  ]

  pub show_uuid-eq : (u w : Uuid) → (c.show_uuid u =ₛ c.show_uuid w) ≡ (u == w)
  show_uuid-eq u w = elim (Bool-cases (u == w)) [
    | inl same ↦ let e : u ≡ w = ground arith in rw e (rw eq_refl (ground arith))
    | inr other ↦ ground (arith, eq_iff (c.show_uuid u) (c.show_uuid w), show_uuid-injective u w)
  ]
