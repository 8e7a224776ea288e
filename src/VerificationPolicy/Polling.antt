-- ===== src/VerificationPolicy/Polling.antt =====
-- verificationPolicy.ts: how the polling loop ends when it ends, round by round.
use agentskeptic.Prelude.{
  ℕ, zero, suc, ◌+◌, ◌≡◌, ◌⊎◌, inl, inr, refl, Bool, true, false, Option, none, some, arith, ap,
  ◌∙◌, sym,
}
use agentskeptic.Prelude.Int.{sub_ℕ}
use agentskeptic.Js.{finite, number_le}
use agentskeptic.Types.{VerificationPolicy, verification_window_ms, poll_interval_ms}
use agentskeptic.MultiEffectRollup.{PolicyExecutionOutput}
use agentskeptic.VerificationPolicy.Input.{Result, done, thrown, exhausted}
use agentskeptic.VerificationPolicy.Run.{Run, Environment, ◌>>=◌}
use agentskeptic.VerificationPolicy.Uncertain.{Expiry}
use agentskeptic.VerificationPolicy.Eventual.{poll, elapsed, after_test, after_attempt}

module _ {E : Type 0} (env : Environment E) (policy : VerificationPolicy) {R : Type 0}
    (attempt : Run E R) (settles : R → Option PolicyExecutionOutput) (expired : R → Expiry) where
  -- The state after a round that was not settled and not late.
  abbrev pub next_state : E → E
  next_state e = env.sleep (poll_interval_ms policy) (env.now (attempt e).1).1

  -- The state at the start of a round, counted from 0.
  abbrev pub round_state : ℕ → E → E
  round_state zero e = e
  round_state (suc round) e = round_state round (next_state e)

  -- The clock shows, after the attempt of a round, at least the window after the start.
  abbrev pub is_late : ℕ → E → Bool
  is_late start e =
      number_le (verification_window_ms policy) (finite (sub_ℕ (env.now (attempt e).1).0 start) 0)

  -- An attempt that is not settled.
  abbrev pub IsUnsettled : E → Type 0
  IsUnsettled e = (r : R) × ((attempt e).0 ≡ done r) × (settles r ≡ none)

  -- In each of the rounds before, the attempt was not settled and it was not late.
  abbrev pub Waited : ℕ → ℕ → E → Type 0
  Waited start zero e = Unit
  Waited start (suc round) e =
      IsUnsettled e × (is_late start e ≡ false) × Waited start round (next_state e)

  -- The loop returned because an attempt was settled.
  pub record Settled (start : ℕ) (e : E) (out : PolicyExecutionOutput) : Type 0 where
    pub round : ℕ
    pub waited : Waited start round e
    pub result : R
    pub tried : (attempt (round_state round e)).0 ≡ done result
    pub settled : settles result ≡ some out

  -- The loop returned because the window had passed after an attempt that was not settled.
  pub record Expired (start attempts : ℕ) (e : E) (out : PolicyExecutionOutput) : Type 0 where
    pub round : ℕ
    pub waited : Waited start round e
    pub result : R
    pub tried : (attempt (round_state round e)).0 ≡ done result
    pub unsettled : settles result ≡ none
    pub late : is_late start (round_state round e) ≡ true
    pub shown : ℕ
    pub output : out ≡ expired result (attempts + suc round) (elapsed start shown) policy

  abbrev pub Ends : ℕ → ℕ → E → PolicyExecutionOutput → Type 0
  Ends start attempts e out = Settled start e out ⊎ Expired start attempts e out

  module _ (start attempts : ℕ) (again : Run E PolicyExecutionOutput) (out : PolicyExecutionOutput)
      (e₀ : E)
      (next : (again (next_state e₀)).0 ≡ done out
        → Ends start (attempts + 1) (next_state e₀) out) where
    weaken :
        IsUnsettled e₀
        → is_late start e₀ ≡ false
        → Ends start (attempts + 1) (next_state e₀) out
        → Ends start attempts e₀ out
    weaken u l (inl s) = inl (record {
      round = suc s.round;
      waited = (u, l, s.waited);
      result = s.result;
      tried = s.tried;
      settled = s.settled;
    })
    weaken u l (inr x) = inr (record {
      round = suc x.round;
      waited = (u, l, x.waited);
      result = x.result;
      tried = x.tried;
      unsettled = x.unsettled;
      late = x.late;
      shown = x.shown;
      output = x.output ∙ ap (λ n. expired x.result n (elapsed start x.shown) policy) (omega arith);
    })

    test-Ends :
        (r : R)
        → (attempt e₀).0 ≡ done r
        → settles r ≡ none
        → (b : Bool) → is_late start e₀ ≡ b
        → (after_test env policy attempt settles expired start
            (attempts + 1)
            again
            r
            b
            (env.now (attempt e₀).1).1).0
          ≡ done out
        → Ends start attempts e₀ out
    test-Ends r a s true p h =
        let shown = (env.now (env.now (attempt e₀).1).1).0 in
        let made : expired r (attempts + 1) (elapsed start shown) policy ≡ out = cc in
        inr (record {
          round = 0;
          waited = tt;
          result = r;
          tried = a;
          unsettled = s;
          late = p;
          shown = shown;
          output = sym made;
        })
    test-Ends r a s false p h = weaken (r, a, s) p (next h)

    attempt-Ends :
        (r : R)
        → (attempt e₀).0 ≡ done r
        → (o : Option PolicyExecutionOutput) → settles r ≡ o
        → (after_attempt env policy attempt settles expired start
            (attempts + 1)
            again
            r
            o
            (attempt e₀).1).0
          ≡ done out
        → Ends start attempts e₀ out
    attempt-Ends r a (some x) s h =
        inl (record { round = 0; waited = tt; result = r; tried = a; settled = cc })
    attempt-Ends r a none s h = test-Ends r a s _ refl h

    try-Ends :
        (x : Result R)
        → (attempt e₀).0 ≡ x
        → (◌>>=◌ {E = E}
            (λ _. (x, (attempt e₀).1))
            (λ r.
              after_attempt env policy attempt settles expired start
                (attempts + 1)
                again
                r
                (settles r))
            e₀).0
          ≡ done out
        → Ends start attempts e₀ out
    try-Ends (done r) a h = attempt-Ends r a (settles r) refl h
    try-Ends (thrown x) a h = cc
    try-Ends exhausted a h = cc

  -- If the loop returns, then in some round the attempt was settled and its output is returned, or it was
  -- not and the clock, read after it, was at least the window after the start, and the output built for
  -- that is returned; in every round before, the attempt was not settled and the window had not passed.
  pub poll-Ends :
      (fuel start attempts : ℕ) (e : E) (out : PolicyExecutionOutput)
      → (poll env policy attempt settles expired fuel start attempts e).0 ≡ done out
      → Ends start attempts e out
  unfolding poll
  poll-Ends zero start attempts e out h = cc
  poll-Ends (suc fuel) start attempts e out h =
      try-Ends start attempts (poll env policy attempt settles expired fuel start (attempts + 1))
        out e (poll-Ends fuel start (attempts + 1) (next_state e) out) (attempt e).0 refl h
