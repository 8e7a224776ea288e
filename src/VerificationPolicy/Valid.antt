-- ===== src/VerificationPolicy/Valid.antt =====
-- Which policies are accepted, and what an accepted one guarantees.
use agentskeptic.Prelude.{
  ◌^◌, ◌≡◌, ◌≢◌, ◌↔◌, refl, true, false, not, none, some, arith, sym, Option-cases, inl, inr, Bool,
  Option, if◌then◌else◌, ◌∙◌,
}
use mathlib.Core.Path.{subst}
use mathlib.Core.Option.{some-injective}
use agentskeptic.Prelude.Int.{ℤ, pos, negsuc, ltb_ℤ, leb_ℤ, scale}
use agentskeptic.Js.{
  Text, Number, nan, infinity, neg_infinity, finite, nat, number_lt, number_le, is_integer,
}
use agentskeptic.Types.{VerificationPolicy, strong, eventual, bounded}
use agentskeptic.VerificationPolicy.Input.{
  Failure, truth_layer_error, verification_policy_invalid, done, thrown, exhausted, invalid, accept,
  below_one, policy_failure, resolve_verification_policy_input, waiting_failure,
  normalize_verification_policy,
}

-- A whole number of milliseconds, at least one.
pub record IsMillis (n : Number) : Type 0 where
  pub whole : is_integer n ≡ true
  pub positive : number_le (nat 1) n ≡ true

-- What holds of a policy that waits.
pub record IsWaiting (w p : Number) : Type 0 where
  pub window : IsMillis w
  pub interval : IsMillis p
  pub fits : number_le p w ≡ true

abbrev pub IsAccepted : VerificationPolicy → Type 0
IsAccepted (strong w p) = Unit
IsAccepted (eventual w p) = IsWaiting w p
IsAccepted (bounded w p s) = IsWaiting w p × IsMillis s

not_lt-le_ℤ : (a b : ℤ) → ltb_ℤ a b ≡ not (leb_ℤ b a)
not_lt-le_ℤ (pos a) (pos b) = ground arith
not_lt-le_ℤ (pos a) (negsuc b) = refl
not_lt-le_ℤ (negsuc a) (pos b) = refl
not_lt-le_ℤ (negsuc a) (negsuc b) = ground arith

-- On whole numbers one of `<` and `>=` holds.
whole-lt :
    (a b : Number) → is_integer a ≡ true → is_integer b ≡ true → number_lt a b ≡ not (number_le b a)
unfolding is_integer number_lt number_le
whole-lt nan b h k = cc
whole-lt infinity b h k = cc
whole-lt neg_infinity b h k = cc
whole-lt (finite a i) nan h k = cc
whole-lt (finite a i) infinity h k = cc
whole-lt (finite a i) neg_infinity h k = cc
whole-lt (finite a i) (finite b j) h k = not_lt-le_ℤ (scale a (2 ^ j)) (scale b (2 ^ i))

nat_one-whole : is_integer (nat 1) ≡ true
unfolding is_integer
nat_one-whole = refl

below_one_iff : (n : Number) → (below_one n ≡ false) ↔ IsMillis n
below_one_iff n = (
  λ h. record {
    whole = ground arith;
    positive = ground (arith, whole-lt n (nat 1), nat_one-whole);
  },
  λ m. ground (arith, m.whole, m.positive, whole-lt n (nat 1), nat_one-whole),
)

waiting_tests :
    (w p : Number)
    → (waiting_failure w p ≡ none)
      ↔ ((below_one w ≡ false) × (below_one p ≡ false) × (number_lt w p ≡ false))
unfolding waiting_failure
waiting_tests w p = ground arith

fits_iff :
    (w p : Number) → IsMillis w → IsMillis p → (number_lt w p ≡ false) ↔ (number_le p w ≡ true)
fits_iff w p a b = ground (arith, whole-lt w p a.whole b.whole)

IsWaiting-iff : (w p : Number) → (waiting_failure w p ≡ none) ↔ IsWaiting w p
IsWaiting-iff w p = (to, from)
  where
    to : waiting_failure w p ≡ none → IsWaiting w p
    to h =
        let t = (waiting_tests w p).0 h in
        let a = (below_one_iff w).0 t.0 in
        let b = (below_one_iff p).0 t.1 in
        record { window = a; interval = b; fits = (fits_iff w p a b).0 t.2 }

    from : IsWaiting w p → waiting_failure w p ≡ none
    from v = (waiting_tests w p).1 (
      (below_one_iff w).1 v.window,
      (below_one_iff p).1 v.interval,
      (fits_iff w p v.window v.interval).1 v.fits,
    )

failure_iff : (p : VerificationPolicy) → (policy_failure p ≡ none) ↔ IsAccepted p
unfolding policy_failure
failure_iff (strong w p) = (λ h. tt, λ h. refl)
failure_iff (eventual w p) = IsWaiting-iff w p
failure_iff (bounded w p s) = (to, from)
  where
    parts :
        (policy_failure (bounded w p s) ≡ none)
        ↔ ((waiting_failure w p ≡ none) × (below_one s ≡ false))
    parts = ground arith

    to : policy_failure (bounded w p s) ≡ none → IsWaiting w p × IsMillis s
    to h = let t = parts.0 h in ((IsWaiting-iff w p).0 t.0, (below_one_iff s).0 t.1)

    from : IsWaiting w p × IsMillis s → policy_failure (bounded w p s) ≡ none
    from (v, m) = parts.1 ((IsWaiting-iff w p).1 v, (below_one_iff s).1 m)

normal : (p : VerificationPolicy) → IsAccepted (normalize_verification_policy p) ↔ IsAccepted p
unfolding normalize_verification_policy
normal (strong w p) = (λ a. a, λ a. a)
normal (eventual w p) = (λ a. a, λ a. a)
normal (bounded w p s) = (λ a. a, λ a. a)

accept-none :
    (q : VerificationPolicy) → policy_failure q ≡ none → accept q (policy_failure q) ≡ done q
accept-none q e = rw e

accept-some :
    (q : VerificationPolicy) {f : Failure}
    → policy_failure q ≡ some f
    → accept q (policy_failure q) ≡ thrown f
accept-some q e = rw e

-- What an accepted policy is resolved to: a policy that waits is kept, and a strong one has no times.
pub data ResolvesTo : VerificationPolicy → VerificationPolicy → Type 0 where
  untimed : (w p : Number) → ResolvesTo (strong w p) (strong (nat 0) (nat 0))
  eventual_kept : (w p : Number) → ResolvesTo (eventual w p) (eventual w p)
  bounded_kept : (w p s : Number) → ResolvesTo (bounded w p s) (bounded w p s)

normalize-ResolvesTo : (p : VerificationPolicy) → ResolvesTo p (normalize_verification_policy p)
unfolding normalize_verification_policy
normalize-ResolvesTo (strong w p) = untimed w p
normalize-ResolvesTo (eventual w p) = eventual_kept w p
normalize-ResolvesTo (bounded w p s) = bounded_kept w p s

-- A failure of a policy that is not valid.
abbrev pub IsInvalidPolicy : Failure → Type 0
IsInvalidPolicy f = (message : Text) × (f ≡ truth_layer_error verification_policy_invalid message)

-- A test that fails with a message, before others.
test-IsInvalid :
    (b : Bool) (message : Text) (o : Option Failure)
    → ((f : Failure) → o ≡ some f → IsInvalidPolicy f)
    → (f : Failure) → (if b then invalid message else o) ≡ some f
    → IsInvalidPolicy f
unfolding invalid
test-IsInvalid true message o later f h = (message, sym (some-injective _ _ h))
test-IsInvalid false message o later f h = later f h

waiting_failure-IsInvalid :
    (w p : Number) (f : Failure) → waiting_failure w p ≡ some f → IsInvalidPolicy f
unfolding waiting_failure
waiting_failure-IsInvalid w p =
    test-IsInvalid (below_one w) _ _
      (test-IsInvalid (below_one p) _ _ (test-IsInvalid (number_lt w p) _ none (λ f h. cc)))

policy_failure-IsInvalid :
    (p : VerificationPolicy) (f : Failure) → policy_failure p ≡ some f → IsInvalidPolicy f
unfolding policy_failure
policy_failure-IsInvalid (strong w p) f h = cc
policy_failure-IsInvalid (eventual w p) f h = waiting_failure-IsInvalid w p f h
policy_failure-IsInvalid (bounded w p s) f h = elim (Option-cases (waiting_failure w p)) [
  | inl e ↦ test-IsInvalid (below_one s) _ none (λ f h. cc) f (rw e at h)
  | inr (g, e) ↦ waiting_failure-IsInvalid w p f (e ∙ (rw e at h))
]

-- A policy is accepted exactly when it is strong, or its window and interval (and in bounded mode its
-- staleness) are whole numbers of at least one and the interval is not longer than the window. It is
-- then given back as it is, but a strong policy with window and interval zero; otherwise a failure is
-- thrown, which says that the policy is invalid.
pub resolve-IsAccepted :
    (p : VerificationPolicy)
    → (IsAccepted p
        → (q : VerificationPolicy) × (resolve_verification_policy_input (some p) ≡ done q)
          × ResolvesTo p q)
      × (¬ IsAccepted p
          → (f : Failure) × (resolve_verification_policy_input (some p) ≡ thrown f)
            × IsInvalidPolicy f)
unfolding resolve_verification_policy_input
resolve-IsAccepted p = (
  λ a. (
    normalize_verification_policy p,
    accept-none (normalize_verification_policy p) ((failure_iff _).1 ((normal p).1 a)),
    normalize-ResolvesTo p,
  ),
  λ refused. elim (Option-cases (policy_failure (normalize_verification_policy p))) [
    | inl e ↦ absurd (refused ((normal p).0 ((failure_iff _).0 e)))
    | inr (f, e) ↦ (
      f,
      accept-some (normalize_verification_policy p) e,
      policy_failure-IsInvalid (normalize_verification_policy p) f e,
    )
  ],
)

-- What resolution gives for a policy that waits is that policy, and it is accepted.
pub resolved-IsAccepted :
    (p q : VerificationPolicy)
    → resolve_verification_policy_input (some p) ≡ done q
    → (q ≡ normalize_verification_policy p) × IsAccepted q
unfolding resolve_verification_policy_input
resolved-IsAccepted p q h = elim (Option-cases (policy_failure (normalize_verification_policy p))) [
  | inl e ↦
      let same : normalize_verification_policy p ≡ q = cc (accept-none _ e) in
      (sym same, subst IsAccepted same ((failure_iff _).0 e))
  | inr (f, e) ↦ cc (accept-some _ e)
]

pub resolve-ends : (p : VerificationPolicy) → resolve_verification_policy_input (some p) ≢ exhausted
unfolding resolve_verification_policy_input
resolve-ends p h = elim (Option-cases (policy_failure (normalize_verification_policy p))) [
  | inl e ↦ cc (accept-none _ e)
  | inr (f, e) ↦ cc (accept-some _ e)
]
