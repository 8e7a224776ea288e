-- ===== src/PlanTransition/NameStatus.antt =====
-- planTransition.ts: `parseGitNameStatusZ`, over the bytes that git prints. `utf8` is the decoder of a buffer.
use agentskeptic.Prelude.{
  ℕ, suc, zero, Bool, Option, none, some, List, [], ◌∷◌, ◌++◌, all, length, ◌==◌, if◌then◌else◌,
}
use agentskeptic.Js.{Text, Runtime, text}
use agentskeptic.JsonPointer.{is_digit}
use agentskeptic.Types.Evidence.{
  PlanDiffRowKind, add, modify, delete, rename, copy, type_change, unmerged, one, two, PlanDiffRow,
}
use agentskeptic.VerificationPolicy.Input.{
  plan_transition_git_parse, truth_layer_error, Result, done, thrown, exhausted,
}
use agentskeptic.Pipeline.{◌>>=◌}
use agentskeptic.PlanTransition.{normalize_path_slashes}

abbrev pub with_byte : ℕ → Option (List ℕ × List ℕ) → Option (List ℕ × List ℕ)
with_byte b none = none
with_byte b (some (xs, rest)) = some (b ∷ xs, rest)

-- `buf.indexOf(0, start)`: the bytes before the first zero, and those after it.
unfoldable pub until_zero : List ℕ → Option (List ℕ × List ℕ)
until_zero [] = none
until_zero (b ∷ bs) = let rest = until_zero bs in if b == 0 then some ([], bs) else with_byte b rest

-- What a status token is: the end of the rows, one path, two paths, or none of these.
pub data Status : Type 0 where
  stop : Status
  single double : PlanDiffRowKind → Status
  unknown : Status

abbrev pub letter_status : ℕ → Status
letter_status c =
    if c == 65
    then single add
    else if c == 77
    then single modify
    else if c == 68
    then single delete
    else if c == 84
    then single type_change
    else if c == 85
    then single unmerged
    else unknown

abbrev pub scored_status : ℕ → Bool → Status
scored_status c digits =
    if digits
    then if c == 82 then double rename else if c == 67 then double copy else unknown
    else unknown

abbrev pub status_of : Text → Status
status_of [] = stop
status_of (c ∷ []) = letter_status c
status_of (c ∷ d ∷ ds) = scored_status c (all is_digit (d ∷ ds))

module _ (js : Runtime) (utf8 : List ℕ → Text) where
  abbrev pub decoded : Option (List ℕ × List ℕ) → Result (Text × List ℕ)
  decoded none = thrown (
      truth_layer_error plan_transition_git_parse
        (text "git name-status -z: truncated stream (missing NUL)."))
  decoded (some (bytes, rest)) = done (utf8 bytes, rest)

  unfoldable pub read_str : List ℕ → Result (Text × List ℕ)
  unfolding until_zero
  read_str bytes = decoded (until_zero bytes)

  abbrev pub one_path : PlanDiffRowKind → Text → PlanDiffRow
  one_path kind p = record { row_kind = kind; paths = one (normalize_path_slashes p) }

  abbrev pub two_paths : PlanDiffRowKind → Text → Text → PlanDiffRow
  two_paths kind p q = record {
    row_kind = kind;
    paths = two (normalize_path_slashes p) (normalize_path_slashes q);
  }

  -- What follows a status token, where `next` parses the rows after this one.
  abbrev pub after_status :
      (List ℕ → Result (List PlanDiffRow)) → Text → Status → List ℕ → Result (List PlanDiffRow)
  after_status next token stop rest = done []
  after_status next token (single kind) rest = do
    p ← read_str rest
    rows ← next p.1
    done (one_path kind p.0 ∷ rows)
  after_status next token (double kind) rest = do
    p ← read_str rest
    q ← read_str p.1
    rows ← next q.1
    done (two_paths kind p.0 q.0 ∷ rows)
  after_status next token unknown rest = thrown (
      truth_layer_error plan_transition_git_parse
        (text "git name-status -z: unknown status token " ++ js.json_text token ++ text "."))

  -- The loop over what is left of the buffer; each round reads at least one byte.
  unfoldable pub parse_rows : ℕ → List ℕ → Result (List PlanDiffRow)
  unfolding read_str normalize_path_slashes
  parse_rows zero bytes = exhausted
  parse_rows (suc fuel) [] = done []
  parse_rows (suc fuel) (b ∷ bs) = do
    s ← read_str (b ∷ bs)
    after_status (λ rest. parse_rows fuel rest) s.0 (status_of s.0) s.1

  unfoldable pub parse_git_name_status_z : List ℕ → Result (List PlanDiffRow)
  unfolding parse_rows
  parse_git_name_status_z bytes = parse_rows (suc (length bytes)) bytes
