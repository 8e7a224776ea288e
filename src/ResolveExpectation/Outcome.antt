-- ===== src/ResolveExpectation/Outcome.antt =====
-- The end of a call of the resolver: a value, a refusal `{ ok: false, code, message }`, or an error that is thrown, by its
-- message.
use agentskeptic.Prelude.{◌≡◌, refl, Bool, true, false, if◌then◌else◌}
use agentskeptic.Js.{Text}
use agentskeptic.WireReasonCodes.{RegistryResolverCode}

pub data Outcome {ℓ} (A : Type ℓ) : Type ℓ where
  ok : A → Outcome A
  refused : RegistryResolverCode → Text → Outcome A
  thrown : Text → Outcome A

module _ {ℓ κ} {A : Type ℓ} {B : Type κ} where
  infixl 5 ◌>>=◌
  abbrev pub ◌>>=◌ : Outcome A → (A → Outcome B) → Outcome B
  ok a >>= f = f a
  refused c m >>= f = refused c m
  thrown m >>= f = thrown m

  pub bind-ok :
      (m : Outcome A) (f : A → Outcome B) {b : B}
      → m >>= f ≡ ok b
      → (a : A) × (m ≡ ok a) × (f a ≡ ok b)
  bind-ok (ok a) f h = (a, refl, h)
  bind-ok (refused c m) f h = cc h
  bind-ok (thrown m) f h = cc h

module _ {ℓ} {A : Type ℓ} where
  pub ok-injective : {a b : A} → ◌≡◌ {A = Outcome A} (ok a) (ok b) → a ≡ b
  ok-injective h = cc h

  -- A test that passed.
  pub if-ok :
      (b : Bool) (v : A) (code : RegistryResolverCode) (message : Text) {out : A}
      → (if b then ok v else refused code message) ≡ ok out
      → (b ≡ true) × (v ≡ out)
  if-ok true v code message h = (refl, ok-injective h)
  if-ok false v code message h = cc h

  pub if_not-ok :
      (b : Bool) (v : A) (code : RegistryResolverCode) (message : Text) {out : A}
      → (if b then refused code message else ok v) ≡ ok out
      → (b ≡ false) × (v ≡ out)
  if_not-ok true v code message h = cc h
  if_not-ok false v code message h = (refl, ok-injective h)
