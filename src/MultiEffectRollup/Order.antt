-- ===== src/MultiEffectRollup/Order.antt =====
-- The order in which the checks of a step are listed does not change its status.
use agentskeptic.Prelude.{◌≡◌, refl, Bool, List, map, any, all, arith, sym, ◌∙◌}
use agentskeptic.Prelude.Sort.{sort, sort-perm}
use agentskeptic.Js.{Runtime}
use agentskeptic.Types.Evidence.{EffectRow}
use agentskeptic.MultiEffectRollup.{
  is_incomplete, is_verified_row, EffectInput, effect_rows, input_le, build_rollup,
  rollup_multi_effects_from_reconciled_rows, CheckInput, check_le, check_row,
  rollup_sql_relational_from_reconciled,
}
use agentskeptic.MultiEffectRollup.Status.{status_of, rollup_status}
use mathlib.Core.List.{Perm, Permᴰ}
use mathlib.Core.List.Perm
use mathlib.Core.Logic.{∥∥₁_elim}
use mathlib.Core.Bool.{Bool-set}

module _ {ℓ} {A : Type ℓ} (p : A → Bool) where
  any-permᴰ : {xs ys : List A} → Permᴰ xs ys → any p xs ≡ any p ys
  any-permᴰ Permᴰ.nil = refl
  any-permᴰ (Permᴰ.cons {a} {l₂} e q) = rw (e, any-permᴰ q)
  any-permᴰ (Permᴰ.swap e f) = rw (e, f) (ground arith)
  any-permᴰ (Permᴰ.trans q r) = any-permᴰ q ∙ any-permᴰ r

  all-permᴰ : {xs ys : List A} → Permᴰ xs ys → all p xs ≡ all p ys
  all-permᴰ Permᴰ.nil = refl
  all-permᴰ (Permᴰ.cons e q) = rw (e, all-permᴰ q)
  all-permᴰ (Permᴰ.swap e f) = rw (e, f) (ground arith)
  all-permᴰ (Permᴰ.trans q r) = all-permᴰ q ∙ all-permᴰ r

  any-perm : {xs ys : List A} → Perm xs ys → any p xs ≡ any p ys
  any-perm h = ∥∥₁_elim h (Bool-set _ _) any-permᴰ

  all-perm : {xs ys : List A} → Perm xs ys → all p xs ≡ all p ys
  all-perm h = ∥∥₁_elim h (Bool-set _ _) all-permᴰ

pub status_of-perm : {xs ys : List EffectRow} → Perm xs ys → status_of xs ≡ status_of ys
status_of-perm h =
    rw (any-perm is_incomplete h, all-perm is_verified_row h, any-perm is_verified_row h)

-- The rollup of reconciled effects has the same status however the effects are listed, and it is the
-- status of the checks in the order given, though they are sorted by id first.
pub rollup_effects-perm :
    (js : Runtime) (xs ys : List EffectInput)
    → Perm xs ys
    → ((rollup_multi_effects_from_reconciled_rows js xs).status
        ≡ (rollup_multi_effects_from_reconciled_rows js ys).status)
      × ((rollup_multi_effects_from_reconciled_rows js xs).status ≡ status_of (effect_rows xs))
unfolding rollup_multi_effects_from_reconciled_rows
rollup_effects-perm js xs ys h =
    (own xs ∙ status_of-perm (Perm.map (λ i. i.row) h) ∙ sym (own ys), own xs)
  where
    own :
        (zs : List EffectInput)
        → (build_rollup js (sort input_le zs)).status ≡ status_of (effect_rows zs)
    own zs =
        (rollup_status js (effect_rows (sort input_le zs))).0
        ∙ status_of-perm (Perm.map (λ i. i.row) (sort-perm input_le zs))

-- The rollup of reconciled relational checks has the same status however the checks are listed, and it is the
-- status of the checks in the order given, though they are sorted by id first.
pub rollup_relational-perm :
    (js : Runtime) (xs ys : List CheckInput)
    → Perm xs ys
    → ((rollup_sql_relational_from_reconciled js xs).status
        ≡ (rollup_sql_relational_from_reconciled js ys).status)
      × ((rollup_sql_relational_from_reconciled js xs).status ≡ status_of (map check_row xs))
unfolding rollup_sql_relational_from_reconciled
rollup_relational-perm js xs ys h =
    (own xs ∙ status_of-perm (Perm.map check_row h) ∙ sym (own ys), own xs)
  where
    own :
        (zs : List CheckInput)
        → (rollup_sql_relational_from_reconciled js zs).status ≡ status_of (map check_row zs)
    own zs =
        (rollup_status js (map check_row (sort check_le zs))).0
        ∙ status_of-perm (Perm.map check_row (sort-perm check_le zs))
