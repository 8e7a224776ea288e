-- ===== src/PlanTransition/RoundTrip.antt =====
-- The name-status output of git, written from changes and parsed again.
use agentskeptic.Prelude.{
  ℕ, suc, zero, ◌<◌, ◌≤◌, ◌≡◌, refl, Bool, true, false, some, List, [], ◌∷◌, ◌++◌, map, all, length,
  length-append, ◌==◌, All, ap, ◌∙◌, arith, if◌then◌else◌,
}
use agentskeptic.Js.{Text, Runtime}
use agentskeptic.JsonPointer.{is_digit}
use agentskeptic.Types.Evidence.{
  PlanDiffRowKind, add, modify, delete, rename, copy, type_change, unmerged, PlanDiffRow,
}
use agentskeptic.VerificationPolicy.Input.{Result, done}
use agentskeptic.Pipeline.{◌>>=◌}
use agentskeptic.PlanTransition.NameStatus.{
  with_byte, until_zero, after_status, single, double, scored_status, status_of, decoded, read_str,
  one_path, two_paths, parse_rows, parse_git_name_status_z,
}

-- A change of one path, and one of two paths with its score in digits.
pub data OnePathKind : Type 0 where
  added modified deleted retyped conflicted : OnePathKind

pub data TwoPathKind : Type 0 where
  renamed copied : TwoPathKind

pub data Change : Type 0 where
  single_change : OnePathKind → (path : List ℕ) → Change
  double_change : TwoPathKind → (first_digit : ℕ) → (digits from to : List ℕ) → Change

abbrev letter : OnePathKind → ℕ
letter added = 65
letter modified = 77
letter deleted = 68
letter retyped = 84
letter conflicted = 85

abbrev one_kind : OnePathKind → PlanDiffRowKind
one_kind added = add
one_kind modified = modify
one_kind deleted = delete
one_kind retyped = type_change
one_kind conflicted = unmerged

abbrev two_letter : TwoPathKind → ℕ
two_letter renamed = 82
two_letter copied = 67

abbrev two_kind : TwoPathKind → PlanDiffRowKind
two_kind renamed = rename
two_kind copied = copy

abbrev pub HasNoZero : List ℕ → Type 0
HasNoZero = All (λ (b : ℕ). (b == 0) ≡ false)

-- What git writes of a change is one: paths without a zero byte, and a score of digits.
abbrev pub IsWritable : Change → Type 0
IsWritable (single_change kind path) = HasNoZero path
IsWritable (double_change kind d ds from to) =
    (all is_digit (d ∷ ds) ≡ true) × HasNoZero from × HasNoZero to

abbrev pub printed_change : Change → List ℕ → List ℕ
printed_change (single_change kind path) rest = letter kind ∷ 0 ∷ (path ++ 0 ∷ rest)
printed_change (double_change kind d ds from to) rest =
    two_letter kind ∷ d ∷ (ds ++ 0 ∷ (from ++ 0 ∷ (to ++ 0 ∷ rest)))

-- `git diff -z --name-status`.
abbrev pub printed : List Change → List ℕ
printed [] = []
printed (c ∷ cs) = printed_change c (printed cs)

until_zero-append :
    (xs rest : List ℕ) → HasNoZero xs → until_zero (xs ++ 0 ∷ rest) ≡ some (xs, rest)
unfolding until_zero
until_zero-append [] rest h = refl
until_zero-append (x ∷ xs) rest (h, hs) =
    ap
      (λ (b : Bool).
        if b then some ([], xs ++ 0 ∷ rest) else with_byte x (until_zero (xs ++ 0 ∷ rest)))
      h
    ∙ ap (with_byte x) (until_zero-append xs rest hs)

digits-HasNoZero : (ds : List ℕ) → all is_digit ds ≡ true → HasNoZero ds
digits-HasNoZero [] h = tt
digits-HasNoZero (d ∷ ds) h = ground (arith, digits-HasNoZero ds)

longer : (xs rest : List ℕ) → length rest < length (xs ++ 0 ∷ rest)
longer xs rest = omega (arith, length-append xs (0 ∷ rest))

change-length : (c : Change) (rest : List ℕ) → length rest < length (printed_change c rest)
change-length (single_change kind path) rest = omega (arith, longer path rest)
change-length (double_change kind d ds from to) rest =
    omega (
      arith,
      longer to rest,
      longer from (to ++ 0 ∷ rest),
      longer ds (from ++ 0 ∷ (to ++ 0 ∷ rest)),
    )

printed-length : (changes : List Change) → length changes ≤ length (printed changes)
printed-length [] = omega arith
printed-length (c ∷ cs) = omega (arith, change-length c (printed cs), printed-length cs)

module _ (js : Runtime) (utf8 : List ℕ → Text) where
  abbrev pub row_of : Change → PlanDiffRow
  row_of (single_change kind path) = one_path js utf8 (one_kind kind) (utf8 path)
  row_of (double_change kind d ds from to) = two_paths js utf8 (two_kind kind) (utf8 from) (utf8 to)

module _ (js : Runtime) (utf8 : List ℕ → Text)
    (ascii : (bytes : List ℕ) → All (λ (b : ℕ). b < 128) bytes → utf8 bytes ≡ bytes) where
  read_str-append :
      (xs rest : List ℕ) → HasNoZero xs → read_str js utf8 (xs ++ 0 ∷ rest) ≡ done (utf8 xs, rest)
  unfolding read_str
  read_str-append xs rest h = ap (decoded js utf8) (until_zero-append xs rest h)

  -- A token of ASCII bytes is read as itself.
  token_read :
      (token rest : List ℕ)
      → HasNoZero token
      → All (λ (b : ℕ). b < 128) token
      → read_str js utf8 (token ++ 0 ∷ rest) ≡ done (token, rest)
  token_read token rest h k =
      read_str-append token rest h ∙ ap (λ (t : Text). done (t, rest)) (ascii token k)

  digits-small : (ds : List ℕ) → all is_digit ds ≡ true → All (λ (b : ℕ). b < 128) ds
  digits-small [] h = tt
  digits-small (d ∷ ds) h = ground (arith, digits-small ds)

  letter-read :
      (kind : OnePathKind) (rest : List ℕ)
      → (read_str js utf8 (letter kind ∷ 0 ∷ rest) ≡ done (letter kind ∷ [], rest))
        × (status_of (letter kind ∷ []) ≡ single (one_kind kind))
  letter-read added rest = (token_read (65 ∷ []) rest (refl, tt) (omega arith, tt), refl)
  letter-read modified rest = (token_read (77 ∷ []) rest (refl, tt) (omega arith, tt), refl)
  letter-read deleted rest = (token_read (68 ∷ []) rest (refl, tt) (omega arith, tt), refl)
  letter-read retyped rest = (token_read (84 ∷ []) rest (refl, tt) (omega arith, tt), refl)
  letter-read conflicted rest = (token_read (85 ∷ []) rest (refl, tt) (omega arith, tt), refl)

  score-read :
      (kind : TwoPathKind) (d : ℕ) (ds rest : List ℕ)
      → all is_digit (d ∷ ds) ≡ true
      → (read_str js utf8 (two_letter kind ∷ d ∷ (ds ++ 0 ∷ rest))
          ≡ done (two_letter kind ∷ d ∷ ds, rest))
        × (status_of (two_letter kind ∷ d ∷ ds) ≡ double (two_kind kind))
  score-read renamed d ds rest h = (
    token_read (82 ∷ d ∷ ds) rest (refl, digits-HasNoZero (d ∷ ds) h)
        (omega arith, digits-small (d ∷ ds) h),
    ap (scored_status 82) h,
  )
  score-read copied d ds rest h = (
    token_read (67 ∷ d ∷ ds) rest (refl, digits-HasNoZero (d ∷ ds) h)
        (omega arith, digits-small (d ∷ ds) h),
    ap (scored_status 67) h,
  )

  parse_change :
      (fuel : ℕ) (c : Change) (rest : List ℕ)
      → IsWritable c
      → parse_rows js utf8 (suc fuel) (printed_change c rest)
        ≡ (parse_rows js utf8 fuel rest >>= (λ rows. done (row_of js utf8 c ∷ rows)))
  unfolding parse_rows
  parse_change fuel (single_change kind path) rest h =
      let next = λ (r : List ℕ). parse_rows js utf8 fuel r in
      let (token, status) = letter-read kind (path ++ 0 ∷ rest) in
      ap
        (λ (s : Result (Text × List ℕ)).
          s >>= (λ t. after_status js utf8 next t.0 (status_of t.0) t.1))
        token
      ∙ ap (λ s. after_status js utf8 next (letter kind ∷ []) s (path ++ 0 ∷ rest)) status
      ∙ ap
          (λ (p : Result (Text × List ℕ)).
            p >>= (λ t. next t.1 >>= (λ rows. done (one_path js utf8 (one_kind kind) t.0 ∷ rows))))
          (read_str-append path rest h)
  parse_change fuel (double_change kind d ds from to) rest (digits, hf, ht) =
      let next = λ (r : List ℕ). parse_rows js utf8 fuel r in
      let (token, status) = score-read kind d ds (from ++ 0 ∷ (to ++ 0 ∷ rest)) digits in
      ap
        (λ (s : Result (Text × List ℕ)).
          s >>= (λ t. after_status js utf8 next t.0 (status_of t.0) t.1))
        token
      ∙ ap
          (λ s.
            after_status js utf8 next (two_letter kind ∷ d ∷ ds) s (from ++ 0 ∷ (to ++ 0 ∷ rest)))
          status
      ∙ ap
          (λ (p : Result (Text × List ℕ)). p >>= (λ t. read_str js utf8 t.1 >>= (λ u.
            next u.1 >>= (λ rows. done (two_paths js utf8 (two_kind kind) t.0 u.0 ∷ rows)))))
          (read_str-append from (to ++ 0 ∷ rest) hf)
      ∙ ap
          (λ (p : Result (Text × List ℕ)). p >>= (λ u.
            next u.1 >>= (λ rows. done (two_paths js utf8 (two_kind kind) (utf8 from) u.0 ∷ rows))))
          (read_str-append to rest ht)

  parse_printed :
      (fuel : ℕ) (changes : List Change)
      → length changes < fuel
      → All IsWritable changes
      → parse_rows js utf8 fuel (printed changes) ≡ done (map (row_of js utf8) changes)
  unfolding parse_rows
  parse_printed zero changes h k = absurd (omega (arith, h))
  parse_printed (suc fuel) [] h k = refl
  parse_printed (suc fuel) (c ∷ cs) h (k, ks) =
      parse_change fuel c (printed cs) k
      ∙ ap (λ (r : Result (List PlanDiffRow)). r >>= (λ rows. done (row_of js utf8 c ∷ rows)))
          (parse_printed fuel cs (omega (arith, h)) ks)

-- Whatever changes git writes, with paths that have no zero byte and scores of digits, their name-status output is parsed to the rows of those changes, in
-- order, with the paths decoded and their backslashes made slashes, if the decoder reads ASCII bytes as themselves; in particular the parser never runs out of fuel on it.
pub parse-printed :
    (js : Runtime) (utf8 : List ℕ → Text)
    (ascii : (bytes : List ℕ) → All (λ (b : ℕ). b < 128) bytes → utf8 bytes ≡ bytes)
    (changes : List Change)
    → All IsWritable changes
    → parse_git_name_status_z js utf8 (printed changes) ≡ done (map (row_of js utf8) changes)
unfolding parse_git_name_status_z
parse-printed js utf8 ascii changes h =
    let enough = printed-length changes in
    parse_printed js utf8 ascii (suc (length (printed changes))) changes (omega (arith, enough)) h
