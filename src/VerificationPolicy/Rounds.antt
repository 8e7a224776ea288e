-- ===== src/VerificationPolicy/Rounds.antt =====
-- The rounds of the polling loop: it ends with fuel for more rounds than the window has milliseconds, if the clock is
-- not set back and a wait of at least a millisecond moves it on.
use agentskeptic.Prelude.{
  ℕ, zero, suc, ◌+◌, ◌-◌, ◌*◌, ◌^◌, ◌≤◌, ◌<◌, ◌≡◌, ◌≢◌, refl, Bool, true, false, Option, none, some,
  List, [], ◌∷◌, arith, sym, ◌∙◌,
}
use mathlib.Core.Bool.{false≢true}
use native.Mathlib.Nat.{pow-suc, le_trans, le_refl}
use native.Mathlib.Decide.{dec_lt}
use agentskeptic.Prelude.Int.{pos, negsuc}
use agentskeptic.Js.{Number, nan, infinity, neg_infinity, finite, nat, number_le, is_integer}
use agentskeptic.Types.{VerificationPolicy, verification_window_ms, poll_interval_ms}
use agentskeptic.MultiEffectRollup.{PolicyExecutionOutput}
use agentskeptic.VerificationPolicy.Input.{Result, done, thrown, exhausted}
use agentskeptic.VerificationPolicy.Run.{Run, Environment, pure, ◌>>=◌, all_settled}
use agentskeptic.VerificationPolicy.Uncertain.{Expiry}
use agentskeptic.VerificationPolicy.Eventual.{
  poll, poll_from_start, elapsed, after_test, after_attempt,
}

-- The milliseconds after which a whole number of them has passed.
abbrev pub millis : Number → ℕ
millis (finite (pos a) i) = a
millis _ = 0

pow_pos : (i : ℕ) → 1 ≤ 2 ^ i
pow_pos zero = omega arith
pow_pos (suc i) = rw pow-suc (omega (arith, pow_pos i))

le_scaled : (a t f : ℕ) → a ≤ t → 1 ≤ f → a * 1 ≤ t * f
le_scaled a t f h k = grind arith

-- A window passes.
millis-le : (w : Number) (t : ℕ) → is_integer w ≡ true → millis w ≤ t → number_le w (nat t) ≡ true
unfolding number_le is_integer
millis-le nan t h k = cc
millis-le infinity t h k = cc
millis-le neg_infinity t h k = cc
millis-le (finite (pos a) i) t h k = ground (arith, le_scaled a t (2 ^ i) k (pow_pos i))
millis-le (finite (negsuc a) i) t h k = refl

elapsed-nat : (start now : ℕ) → start ≤ now → elapsed start now ≡ nat (now - start)
elapsed-nat start now h = ground arith

module _ {E : Type 0} (env : Environment E) where
  -- What the clock shows in a state.
  abbrev pub clock : E → ℕ
  clock e = (env.now e).0

  -- Neither reading the clock nor waiting sets it back, and a wait of at least a millisecond moves it on.
  pub record IsAdvancing : Type 0 where
    pub now_le : (e : E) → clock e ≤ clock (env.now e).1
    pub sleep_lt :
        (n : Number) (e : E) → number_le (nat 1) n ≡ true → clock e < clock (env.sleep n e)

  -- A run that does not set the clock back, and that ends.
  pub record Keeps {A : Type 0} (run : Run E A) : Type 0 where
    pub clock_le : (e : E) → clock e ≤ clock (run e).1
    pub ends : (e : E) → (run e).0 ≢ exhausted

  module _ (policy : VerificationPolicy) (adv : IsAdvancing)
      (whole : is_integer (verification_window_ms policy) ≡ true)
      (positive : number_le (nat 1) (poll_interval_ms policy) ≡ true) {R : Type 0}
      (attempt : Run E R) (kept : Keeps attempt) (settles : R → Option PolicyExecutionOutput)
      (expired : R → Expiry) where
    -- While the window has not passed, the clock shows a time before its end.
    still_early :
        (start t : ℕ)
        → start ≤ t
        → number_le (verification_window_ms policy) (elapsed start t) ≡ false
        → t < start + millis (verification_window_ms policy)
    still_early start t a p = elim (dec_lt t (start + millis (verification_window_ms policy))) [
      | yes q ↦ q
      | no q ↦
          let late = millis-le (verification_window_ms policy) (t - start) whole (omega arith) in
          absurd (false≢true (sym p ∙ rw (elapsed-nat start t a) late))
    ]

    test-total :
        (fuel start attempts : ℕ) (again : Run E PolicyExecutionOutput)
        → ((e : E)
            → start ≤ clock e
            → start + millis (verification_window_ms policy) - clock e < fuel
            → (again e).0 ≢ exhausted)
        → (r : R) (t : ℕ) (e : E) → start ≤ t
        → t ≤ clock e
        → start + millis (verification_window_ms policy) - t ≤ fuel
        → (b : Bool) → number_le (verification_window_ms policy) (elapsed start t) ≡ b
        → (after_test env policy attempt settles expired start attempts again r b e).0 ≢ exhausted
    test-total fuel start attempts again next r t e a b c true p h = cc
    test-total fuel start attempts again next r t e a b c false p h =
        let moved = adv.sleep_lt (poll_interval_ms policy) e positive in
        let early = still_early start t a p in
        next (env.sleep (poll_interval_ms policy) e) (omega arith) (omega arith) h

    attempt-total :
        (fuel start attempts : ℕ) (again : Run E PolicyExecutionOutput)
        → ((e : E)
            → start ≤ clock e
            → start + millis (verification_window_ms policy) - clock e < fuel
            → (again e).0 ≢ exhausted)
        → (r : R) (e : E) → start ≤ clock e
        → start + millis (verification_window_ms policy) - clock e ≤ fuel
        → (o : Option PolicyExecutionOutput)
        → (after_attempt env policy attempt settles expired start attempts again r o e).0
          ≢ exhausted
    attempt-total fuel start attempts again next r e a c (some out) h = cc
    attempt-total fuel start attempts again next r e a c none h =
        test-total fuel start attempts again next r (clock e) (env.now e).1 a (adv.now_le e) c _
          refl h

    try-total :
        (fuel start attempts : ℕ) (again : Run E PolicyExecutionOutput)
        → ((e : E)
            → start ≤ clock e
            → start + millis (verification_window_ms policy) - clock e < fuel
            → (again e).0 ≢ exhausted)
        → (x : Result R) (e : E) → x ≢ exhausted
        → start ≤ clock e
        → start + millis (verification_window_ms policy) - clock e ≤ fuel
        → (◌>>=◌ {E = E}
            (λ _. (x, e))
            (λ r.
              after_attempt env policy attempt settles expired start attempts again r (settles r))
            e).0
          ≢ exhausted
    try-total fuel start attempts again next (done r) e n a c h =
        attempt-total fuel start attempts again next r e a c (settles r) h
    try-total fuel start attempts again next (thrown x) e n a c h = cc
    try-total fuel start attempts again next exhausted e n a c h = n refl

    poll-total :
        (fuel start attempts : ℕ) (e : E)
        → start ≤ clock e
        → start + millis (verification_window_ms policy) - clock e < fuel
        → (poll env policy attempt settles expired fuel start attempts e).0 ≢ exhausted
    unfolding poll
    poll-total zero start attempts e a b = absurd (omega arith)
    poll-total (suc fuel) start attempts e a b =
        try-total fuel start (attempts + 1)
          (poll env policy attempt settles expired fuel start (attempts + 1))
          (poll-total fuel start (attempts + 1)) (attempt e).0 (attempt e).1 (kept.ends e)
          (omega (arith, kept.clock_le e)) (omega (arith, kept.clock_le e))

    pub from_start-total :
        (fuel : ℕ) (e : E)
        → millis (verification_window_ms policy) < fuel
        → (poll_from_start env policy attempt settles expired fuel e).0 ≢ exhausted
    unfolding poll_from_start
    from_start-total fuel e h =
        poll-total fuel (clock e) 0 (env.now e).1 (adv.now_le e) (omega (arith, adv.now_le e))

  -- Runs in sequence keep what each keeps.
  pub bind-Keeps :
      {A B : Type 0} (m : Run E A) (k : A → Run E B)
      → Keeps m
      → ((a : A) → Keeps (k a))
      → Keeps (m >>= k)
  bind-Keeps {B = B} m k hm hk = record {
    clock_le = λ e. later (m e).0 (m e).1 (hm.clock_le e);
    ends = λ e. stops (m e).0 (m e).1 (hm.ends e);
  }
    where
      later :
          {n : ℕ} (x : Result _) (e : E)
          → n ≤ clock e
          → n ≤ clock (◌>>=◌ {E = E} {B = B} (λ _. (x, e)) k e).1
      later (done a) e h = le_trans h ((hk a).clock_le e)
      later (thrown x) e h = h
      later exhausted e h = h

      stops :
          (x : Result _) (e : E)
          → x ≢ exhausted
          → (◌>>=◌ {E = E} {B = B} (λ _. (x, e)) k e).0 ≢ exhausted
      stops (done a) e h = (hk a).ends e
      stops (thrown x) e h = λ q. cc
      stops exhausted e h = λ q. h refl

  pub pure-Keeps : {A : Type 0} (a : A) → Keeps {A = A} (pure a)
  pure-Keeps a = record { clock_le = λ e. le_refl (clock e); ends = λ e q. cc }

  pub all_settled-Keeps :
      {A B : Type 0} (f : A → Run E B) (xs : List A)
      → ((a : A) → Keeps (f a))
      → Keeps (all_settled f xs)
  unfolding all_settled
  all_settled-Keeps f [] h = pure-Keeps []
  all_settled-Keeps f (x ∷ xs) h =
      bind-Keeps _ _ (h x)
        (λ y. bind-Keeps _ _ (all_settled-Keeps f xs h) (λ ys. pure-Keeps ((x, y) ∷ ys)))
