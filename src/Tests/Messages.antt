-- ===== src/Tests/Messages.antt =====
-- Messages and quoted identifiers on concrete texts.
use agentskeptic.Prelude.{
  ℕ, ◌≡◌, refl, false, Option, none, some, [], ◌∷◌, ◌++◌, ◌==◌, if◌then◌else◌, arith,
}
use agentskeptic.Js.{Text}
use agentskeptic.FailureCatalog.{format_operational_message}
use agentskeptic.FailureCatalog.Message.{IsOneLine, format-IsOneLine, format-format}
use agentskeptic.Types.{StepVerificationRequest}
use agentskeptic.VerificationDiagnostics.Summary.{
  IsShort, format_verification_target_summary, summary-IsShort,
}
use agentskeptic.Tests.{runtime, related}
use agentskeptic.SqlDialect.{postgresql, quote_ident}
use agentskeptic.SqlDialect.Quoting.{push, starts_with, IsReader, quote-read}

-- A tab, a letter, two spaces, a line feed and a letter.
abbrev untidy : Text
untidy = 9 ∷ 97 ∷ 32 ∷ 32 ∷ 10 ∷ 98 ∷ []

format-IsOneLine_example : IsOneLine (format_operational_message untidy)
format-IsOneLine_example = format-IsOneLine untidy

format-format_example :
    format_operational_message (format_operational_message untidy)
    ≡ format_operational_message untidy
format-format_example = format-format untidy

-- A reader that does what the manuals say.
read_quoted : ℕ → Text → Option (Text × Text)
read_quoted q [] = none
read_quoted q (c ∷ []) = if c == q then some ([], []) else none
read_quoted q (c ∷ d ∷ s) =
    let doubled = push q (read_quoted q s) in
    let plain = push c (read_quoted q (d ∷ s)) in
    if c == q then (if d == q then doubled else some ([], d ∷ s)) else plain

abbrev read_identifier : Text → Option (Text × Text)
read_identifier [] = none
read_identifier (c ∷ s) = read_quoted 34 s

read_quoted-end :
    (rest : Text) → starts_with 34 rest ≡ false → read_quoted 34 (34 ∷ rest) ≡ some ([], rest)
unfolding read_quoted
read_quoted-end [] h = refl
read_quoted-end (c ∷ s) h = ground arith

read_quoted-plain :
    (c : ℕ) (s : Text) → (c == 34) ≡ false → read_quoted 34 (c ∷ s) ≡ push c (read_quoted 34 s)
unfolding read_quoted
read_quoted-plain c [] h = ground arith
read_quoted-plain c (d ∷ s) h = ground arith

read_quoted-IsReader : IsReader postgresql read_identifier (read_quoted 34)
unfolding read_quoted
read_quoted-IsReader = record {
  opening_law = λ s. refl;
  end_law = read_quoted-end;
  pair_law = λ s. refl;
  plain_law = λ c s k h. read_quoted-plain c s h;
}

-- The identifier is a double quote.
quote-read_example :
    read_identifier (quote_ident postgresql (34 ∷ []) ++ 32 ∷ []) ≡ some (34 ∷ [], 32 ∷ [])
quote-read_example =
    quote-read postgresql read_identifier (read_quoted 34) tt read_quoted-IsReader (34 ∷ [])
      (32 ∷ []) (omega arith, tt) refl

summary-IsShort_example : IsShort (
    format_verification_target_summary runtime
      (StepVerificationRequest.sql_relational (related ∷ related ∷ [])))
summary-IsShort_example =
    summary-IsShort runtime (StepVerificationRequest.sql_relational (related ∷ related ∷ []))
