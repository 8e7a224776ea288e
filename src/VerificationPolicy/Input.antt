-- ===== src/VerificationPolicy/Input.antt =====
-- verificationPolicy.ts: normalising and validating a policy.
use agentskeptic.Prelude.{Bool, not, ◌||◌, Option, none, some, if◌then◌else◌}
use agentskeptic.Js.{Text, Number, text, nat, number_lt, is_integer}
use agentskeptic.Types.{VerificationPolicy, strong, eventual, bounded}

-- The codes of a `TruthLayerError` that the policy code, the pipeline and the plans throw.
pub data OperationalCode : Type 0 where
  verification_policy_invalid internal_error : OperationalCode
  sqlite_database_open_failed postgres_client_setup_failed plan_transition_git_parse :
      OperationalCode

-- What is thrown: a `TruthLayerError`, or any other error by its message.
pub data Failure : Type 0 where
  truth_layer_error : OperationalCode → Text → Failure
  other_error : Text → Failure

-- The end of a call. `exhausted` is no end of the program: the fuel of the model ran out.
pub data Result {ℓ} (A : Type ℓ) : Type ℓ where
  done : A → Result A
  thrown : Failure → Result A
  exhausted : Result A

unfoldable pub default_verification_policy : VerificationPolicy
default_verification_policy = strong (nat 0) (nat 0)

unfoldable pub normalize_verification_policy : VerificationPolicy → VerificationPolicy
normalize_verification_policy (strong w p) = strong (nat 0) (nat 0)
normalize_verification_policy (bounded w p s) = bounded w p s
normalize_verification_policy (eventual w p) = eventual w p

-- `!Number.isInteger(n) || n < 1`.
abbrev pub below_one : Number → Bool
below_one n = not (is_integer n) || number_lt n (nat 1)

unfoldable pub invalid : Text → Option Failure
invalid message = some (truth_layer_error verification_policy_invalid message)

-- The tests of a mode that waits: the failure that is thrown, or none.
unfoldable pub waiting_failure : Number → Number → Option Failure
unfolding invalid
waiting_failure w p =
    if below_one w
    then invalid (text "eventual mode requires integer verificationWindowMs >= 1")
    else if below_one p
    then invalid (text "eventual mode requires integer pollIntervalMs >= 1")
    else if number_lt w p
    then invalid (text "pollIntervalMs must be <= verificationWindowMs")
    else none

abbrev and_then : Option Failure → Option Failure → Option Failure
and_then (some f) g = some f
and_then none g = g

-- `assertValidVerificationPolicy`: what it throws.
unfoldable pub policy_failure : VerificationPolicy → Option Failure
unfolding waiting_failure
policy_failure (strong w p) = none
policy_failure (eventual w p) = waiting_failure w p
policy_failure (bounded w p s) = and_then (waiting_failure w p) (
    if below_one s
    then invalid (text "bounded mode requires integer maxStalenessMs >= 1")
    else none)

abbrev pub accept : VerificationPolicy → Option Failure → Result VerificationPolicy
accept p none = done p
accept p (some f) = thrown f

abbrev given_or_default : Option VerificationPolicy → VerificationPolicy
given_or_default none = default_verification_policy
given_or_default (some p) = p

unfoldable pub resolve_verification_policy_input :
    Option VerificationPolicy → Result VerificationPolicy
unfolding normalize_verification_policy policy_failure default_verification_policy
resolve_verification_policy_input input =
    let normalized = normalize_verification_policy (given_or_default input) in
    accept normalized (policy_failure normalized)
