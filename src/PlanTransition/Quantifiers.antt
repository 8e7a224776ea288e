-- ===== src/PlanTransition/Quantifiers.antt =====
-- The Boolean searches of JavaScript's arrays, read as properties of the elements.
use agentskeptic.Prelude.{
  ◌≡◌, ◌↔◌, ◌⊎◌, inl, inr, refl, Bool, true, false, not, ◌&&◌, ◌||◌, List, [], ◌∷◌, ◌++◌, map, any,
  keep, is_empty, All, Bool-cases, ap, ◌∙◌, sym, and_parts,
}
use mathlib.Core.Bool.{true≢false}

-- Some element has the property.
abbrev pub Some : {A : Type 0} → (A → Type 0) → List A → Type 0
Some P [] = ⊥
Some P (x ∷ xs) = P x ⊎ Some P xs

pub any_iff :
    {A : Type 0} (p : A → Bool) (xs : List A) → (any p xs ≡ true) ↔ Some (λ x. p x ≡ true) xs
any_iff p [] = (λ h. cc h, λ h. absurd h)
any_iff p (x ∷ xs) = elim (Bool-cases (p x)) [
  | inl t ↦ (λ h. inl t, λ h. rw t refl)
  | inr f ↦
      let rest = any_iff p xs in
      (
        λ h. inr (rest.0 (sym (ap (λ (b : Bool). b || any p xs) f) ∙ h)),
        λ h.
            ap (λ (b : Bool). b || any p xs) f
            ∙ elim h [ inl t ↦ absurd (true≢false (sym t ∙ f)) | inr s ↦ rest.1 s ],
      )
]

pub not_any_iff :
    {A : Type 0} (p : A → Bool) (xs : List A) → (any p xs ≡ false) ↔ All (λ x. p x ≡ false) xs
not_any_iff p [] = (λ h. tt, λ h. refl)
not_any_iff p (x ∷ xs) = elim (Bool-cases (p x)) [
  | inl t ↦ (
    λ h. absurd (true≢false (sym (ap (λ (b : Bool). b || any p xs) t) ∙ h)),
    λ (h, hs). absurd (true≢false (sym t ∙ h)),
  )
  | inr f ↦
      let rest = not_any_iff p xs in
      (
        λ h. (f, rest.0 (sym (ap (λ (b : Bool). b || any p xs) f) ∙ h)),
        λ (h, hs). ap (λ (b : Bool). b || any p xs) f ∙ rest.1 hs,
      )
]

pub keep-empty_iff :
    {A : Type 0} (p : A → Bool) (xs : List A)
    → (is_empty (keep p xs) ≡ true) ↔ All (λ x. p x ≡ false) xs
keep-empty_iff p [] = (λ h. tt, λ h. refl)
keep-empty_iff p (x ∷ xs) = elim (Bool-cases (p x)) [
  | inl t ↦
      (λ h. absurd (true≢false (sym h ∙ rw t refl)), λ (h, hs). absurd (true≢false (sym t ∙ h)))
  | inr f ↦
      let rest = keep-empty_iff p xs in
      (λ h. (f, rest.0 (sym (rw f refl) ∙ h)), λ (h, hs). rw f (rest.1 hs))
]

pub All-iff :
    {A : Type 0} {P Q : A → Type 0} (xs : List A) → ((x : A) → P x ↔ Q x) → All P xs ↔ All Q xs
All-iff [] h = (λ k. k, λ k. k)
All-iff (x ∷ xs) h =
    let rest = All-iff xs h in
    (λ (k, ks). ((h x).0 k, rest.0 ks), λ (k, ks). ((h x).1 k, rest.1 ks))

pub Some-iff :
    {A : Type 0} {P Q : A → Type 0} (xs : List A) → ((x : A) → P x ↔ Q x) → Some P xs ↔ Some Q xs
Some-iff [] h = (λ k. k, λ k. k)
Some-iff (x ∷ xs) h =
    let rest = Some-iff xs h in
    (
      λ k. elim k [ inl p ↦ inl ((h x).0 p) | inr s ↦ inr (rest.0 s) ],
      λ k. elim k [ inl p ↦ inl ((h x).1 p) | inr s ↦ inr (rest.1 s) ],
    )

pub both_iff : {X Y Z : Type 0} → X ↔ Y → Y ↔ Z → X ↔ Z
both_iff (a, b) (c, d) = (λ x. c (a x), λ z. b (d z))

pub empty-append_iff :
    {A : Type 0} (xs ys : List A)
    → (is_empty (xs ++ ys) ≡ true) ↔ ((is_empty xs ≡ true) × (is_empty ys ≡ true))
empty-append_iff [] ys = (λ h. (refl, h), λ (h, k). k)
empty-append_iff (x ∷ xs) ys = (λ h. cc h, λ (h, k). cc h)

pub empty-map_iff :
    {A B : Type 0} (f : A → B) (xs : List A) → (is_empty (map f xs) ≡ true) ↔ (is_empty xs ≡ true)
empty-map_iff f [] = (λ h. h, λ h. h)
empty-map_iff f (x ∷ xs) = (λ h. h, λ h. h)

pub not_iff : (b : Bool) → (not b ≡ false) ↔ (b ≡ true)
not_iff true = (λ h. refl, λ h. refl)
not_iff false = (λ h. cc h, λ h. cc h)

pub implies_iff : (a b : Bool) → ((a && not b) ≡ false) ↔ (a ≡ true → b ≡ true)
implies_iff true b = (λ h k. (not_iff b).0 h, λ h. (not_iff b).1 (h refl))
implies_iff false b = (λ h k. cc k, λ h. refl)

pub and_iff : (a b : Bool) → ((a && b) ≡ true) ↔ ((a ≡ true) × (b ≡ true))
and_iff a b = (and_parts a b, λ (h, k). rw h k)
