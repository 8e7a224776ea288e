-- ===== src/Prelude/Sort.antt =====
-- `Array.prototype.sort`: a stable sort by a comparator, as an insertion sort. The comparator
-- is given as "not greater": `le x y` is `compare(x, y) <= 0`.
use mathlib.Core.Path.{◌≡◌, refl, ap, ◌∙◌}
use mathlib.Core.Logic.{inl, inr}
use mathlib.Core.Bool.{Bool, true, false, ◌&&◌, ◌||◌}
use mathlib.Core.List.{List, [], ◌∷◌, Perm}
use mathlib.Core.List.Perm
use native.Mathlib.Omega.{arith}
use agentskeptic.Prelude.Tests.{if◌then◌else◌, Bool-cases}
use agentskeptic.Prelude.Lists.{length, any, all, All}
use Prim.Native.Nat.{suc}

module _ {ℓ} {A : Type ℓ} (le : A → A → Bool) where
  unfoldable pub insert : A → List A → List A
  insert x [] = x ∷ []
  insert x (y ∷ ys) = if le x y then x ∷ y ∷ ys else y ∷ insert x ys

  unfoldable pub sort : List A → List A
  unfolding insert
  sort [] = []
  sort (x ∷ xs) = insert x (sort xs)

  -- Each element is not greater than its successor.
  abbrev pub IsSorted : List A → Type ℓ
  IsSorted [] = Unit
  IsSorted (x ∷ xs) = All (λ y. le x y ≡ true) xs × IsSorted xs

  -- What a comparator must be for the result to be sorted.
  pub record IsOrder : Type ℓ where
    pub total : (x y : A) → le x y ≡ false → le y x ≡ true
    pub trans : (x y z : A) → le x y ≡ true → le y z ≡ true → le x z ≡ true

  insert-perm : (x : A) (xs : List A) → Perm (insert x xs) (x ∷ xs)
  unfolding insert
  insert-perm x [] = Perm.refl _
  insert-perm x (y ∷ ys) = elim (Bool-cases (le x y)) [
    | inl e ↦ rw e (Perm.refl _)
    | inr e ↦ rw e (Perm.trans (Perm.cons y (insert-perm x ys)) (Perm.swap x y ys))
  ]

  -- The sort only moves elements.
  pub sort-perm : (xs : List A) → Perm (sort xs) xs
  unfolding sort
  sort-perm [] = Perm.refl _
  sort-perm (x ∷ xs) = Perm.trans (insert-perm x (sort xs)) (Perm.cons x (sort-perm xs))

  pub length-sort : (xs : List A) → length (sort xs) ≡ length xs
  unfolding sort
  length-sort [] = refl
  length-sort (x ∷ xs) = omega (arith, length-insert x (sort xs), length-sort xs)
    where
      length-insert : (y : A) (ys : List A) → length (insert y ys) ≡ suc (length ys)
      length-insert y [] = refl
      length-insert y (z ∷ ys) = ground (arith, length-insert y ys)

  any-insert : (p : A → Bool) (x : A) (xs : List A) → any p (insert x xs) ≡ (p x || any p xs)
  unfolding insert
  any-insert p x [] = refl
  any-insert p x (y ∷ ys) = ground (arith, any-insert p x ys)

  pub any-sort : (p : A → Bool) (xs : List A) → any p (sort xs) ≡ any p xs
  unfolding sort
  any-sort p [] = refl
  any-sort p (x ∷ xs) = any-insert p x (sort xs) ∙ ap (λ b. p x || b) (any-sort p xs)

  all-insert : (p : A → Bool) (x : A) (xs : List A) → all p (insert x xs) ≡ (p x && all p xs)
  unfolding insert
  all-insert p x [] = refl
  all-insert p x (y ∷ ys) = ground (arith, all-insert p x ys)

  pub all-sort : (p : A → Bool) (xs : List A) → all p (sort xs) ≡ all p xs
  unfolding sort
  all-sort p [] = refl
  all-sort p (x ∷ xs) = all-insert p x (sort xs) ∙ ap (λ b. p x && b) (all-sort p xs)

  module _ (o : IsOrder) where
    All-insert :
        (z x : A) (xs : List A)
        → le z x ≡ true
        → All (λ y. le z y ≡ true) xs
        → All (λ y. le z y ≡ true) (insert x xs)
    unfolding insert
    All-insert z x [] h k = (h, tt)
    All-insert z x (y ∷ ys) h k = ground (arith, All-insert z x ys h)

    All-le :
        (x y : A) (ys : List A)
        → le x y ≡ true
        → All (λ z. le y z ≡ true) ys
        → All (λ z. le x z ≡ true) ys
    All-le x y [] h k = tt
    All-le x y (z ∷ ys) h k = (o.trans x y z h k.0, All-le x y ys h k.1)

    insert-IsSorted : (x : A) (xs : List A) → IsSorted xs → IsSorted (insert x xs)
    unfolding insert
    insert-IsSorted x [] h = (tt, tt)
    insert-IsSorted x (y ∷ ys) h = elim (Bool-cases (le x y)) [
      | inl e ↦ rw e ((e, All-le x y ys e h.0), h)
      | inr e ↦ rw e (All-insert y x ys (o.total x y e) h.0, insert-IsSorted x ys h.1)
    ]

    -- With a total order the result is sorted.
    pub sort-IsSorted : (xs : List A) → IsSorted (sort xs)
    unfolding sort
    sort-IsSorted [] = tt
    sort-IsSorted (x ∷ xs) = insert-IsSorted x (sort xs) (sort-IsSorted xs)

  insert-first : (x : A) (xs : List A) → All (λ y. le x y ≡ true) xs → insert x xs ≡ x ∷ xs
  unfolding insert
  insert-first x [] h = refl
  insert-first x (y ∷ ys) h = rw (h.0)

  -- A sorted list is left as it is.
  pub sort-same : (xs : List A) → IsSorted xs → sort xs ≡ xs
  unfolding sort
  sort-same [] h = refl
  sort-same (x ∷ xs) h = rw (sort-same xs h.1) (insert-first x xs h.0)

  module _ {κ} (P : A → Type κ) where
    insert-All : (x : A) (xs : List A) → P x → All P xs → All P (insert x xs)
    unfolding insert
    insert-All x [] p h = (p, tt)
    insert-All x (y ∷ ys) p (q, h) = elim (Bool-cases (le x y)) [
      | inl e ↦ rw e (p, (q, h))
      | inr e ↦ rw e (q, insert-All x ys p h)
    ]

    -- What holds of every element does so after the sort.
    pub sort-All : (xs : List A) → All P xs → All P (sort xs)
    unfolding sort
    sort-All [] h = tt
    sort-All (x ∷ xs) (p, h) = insert-All x (sort xs) p (sort-All xs h)

  module _ {κ} (R : A → A → Type κ) where
    -- Every element is related to each that follows it.
    abbrev pub Pairwise : List A → Type (ℓ ⊔ κ)
    Pairwise [] = Unit
    Pairwise (x ∷ xs) = All (R x) xs × Pairwise xs

    module _ (sym_R : (x y : A) → R x y → R y x) where
      insert-Pairwise : (x : A) (xs : List A) → All (R x) xs → Pairwise xs → Pairwise (insert x xs)
      unfolding insert
      insert-Pairwise x [] p h = (tt, tt)
      insert-Pairwise x (y ∷ ys) (p, ps) (q, h) = elim (Bool-cases (le x y)) [
        | inl e ↦ rw e ((p, ps), (q, h))
        | inr e ↦ rw e (insert-All (R y) x ys (sym_R x y p) q, insert-Pairwise x ys ps h)
      ]

      -- A symmetric relation between all elements holds after the sort.
      pub sort-Pairwise : (xs : List A) → Pairwise xs → Pairwise (sort xs)
      unfolding sort
      sort-Pairwise [] h = tt
      sort-Pairwise (x ∷ xs) (p, h) =
          insert-Pairwise x (sort xs) (sort-All (R x) xs p) (sort-Pairwise xs h)
