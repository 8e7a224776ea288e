-- ===== src/FailureCatalog/Message.antt =====
-- What `formatOperationalMessage` guarantees of its result.
use agentskeptic.Prelude.{
  ℕ, ◌≤◌, ◌<◌, ◌≡◌, refl, Bool, true, false, not, ◌&&◌, ◌||◌, [], ◌∷◌, ◌++◌, map, length, take,
  arith, ltb, ◌==◌, Bool-cases, length-append, all, inl, inr,
}
use agentskeptic.Js.{Text, text, is_whitespace, trim, trim_start, trim_end, trim_last}
use agentskeptic.FailureCatalog.{
  operational_message_max_chars, unbreak, starts_with_space, squeeze, limit,
  format_operational_message,
}

-- A code unit that is no tab, carriage return or line feed.
abbrev pub is_unbroken : ℕ → Bool
is_unbroken c = not (c == 9 || c == 13 || c == 10)

-- No two spaces follow one another.
abbrev pub is_single_spaced : Text → Bool
is_single_spaced [] = true
is_single_spaced (c ∷ s) = not (c == 32 && starts_with_space s) && is_single_spaced s

abbrev pub starts_black : Text → Bool
starts_black [] = true
starts_black (c ∷ s) = not (is_whitespace c)

abbrev pub ends_black : Text → Bool
ends_black [] = true
ends_black (c ∷ []) = not (is_whitespace c)
ends_black (c ∷ d ∷ s) = ends_black (d ∷ s)

-- A one-line message: no line breaks or tabs, single spaces, nothing to trim, at most 2048 units.
pub record IsOneLine (s : Text) : Type 0 where
  pub unbroken : all is_unbroken s ≡ true
  pub single : is_single_spaced s ≡ true
  pub starts : starts_black s ≡ true
  pub ends : ends_black s ≡ true
  pub short : length s ≤ operational_message_max_chars

all-unbreak : (s : Text) → all is_unbroken (map unbreak s) ≡ true
unfolding unbreak
all-unbreak [] = refl
all-unbreak (c ∷ s) = ground (arith, all-unbreak s)

all-squeeze : (p : ℕ → Bool) (s : Text) → all p s ≡ true → all p (squeeze s) ≡ true
unfolding squeeze
all-squeeze p [] h = refl
all-squeeze p (c ∷ s) h = ground (arith, all-squeeze p s)

starts-squeeze : (s : Text) → starts_with_space (squeeze s) ≡ starts_with_space s
unfolding squeeze
starts-squeeze [] = refl
starts-squeeze (c ∷ s) = ground (arith, starts-squeeze s)

single-squeeze : (s : Text) → is_single_spaced (squeeze s) ≡ true
unfolding squeeze
single-squeeze [] = refl
single-squeeze (c ∷ s) = ground (arith, single-squeeze s, starts-squeeze s)

all-trim_start : (p : ℕ → Bool) (s : Text) → all p s ≡ true → all p (trim_start s) ≡ true
unfolding trim_start
all-trim_start p [] h = refl
all-trim_start p (c ∷ s) h = ground (arith, all-trim_start p s)

single-trim_start : (s : Text) → is_single_spaced s ≡ true → is_single_spaced (trim_start s) ≡ true
unfolding trim_start
single-trim_start [] h = refl
single-trim_start (c ∷ s) h = ground (arith, single-trim_start s)

starts-trim_start : (s : Text) → starts_black (trim_start s) ≡ true
unfolding trim_start
starts-trim_start [] = refl
starts-trim_start (c ∷ s) = ground (arith, starts-trim_start s)

all-trim_last :
    (p : ℕ → Bool) (c : ℕ) (s : Text) → all p (c ∷ s) ≡ true → all p (trim_last c s) ≡ true
all-trim_last p c [] h = ground arith
all-trim_last p c (d ∷ s) h = h

all-trim_end : (p : ℕ → Bool) (s : Text) → all p s ≡ true → all p (trim_end s) ≡ true
unfolding trim_end
all-trim_end p [] h = refl
all-trim_end p (c ∷ s) h = ground (arith, all-trim_last p c (trim_end s), all-trim_end p s)

-- The end of a text is kept up to what is trimmed.
starts-trim_end : (s : Text) → starts_with_space s ≡ false → starts_with_space (trim_end s) ≡ false
unfolding trim_end
starts-trim_end [] h = refl
starts-trim_end (c ∷ s) h = starts-trim_last c (trim_end s) h
  where
    starts-trim_last :
        (d : ℕ) (t : Text) → (d == 32) ≡ false → starts_with_space (trim_last d t) ≡ false
    starts-trim_last d [] k = ground arith
    starts-trim_last d (e ∷ t) k = k

single-trim_last :
    (c : ℕ) (s : Text) → is_single_spaced (c ∷ s) ≡ true → is_single_spaced (trim_last c s) ≡ true
single-trim_last c [] h = ground arith
single-trim_last c (d ∷ s) h = h

single-trim_end : (s : Text) → is_single_spaced s ≡ true → is_single_spaced (trim_end s) ≡ true
unfolding trim_end
single-trim_end [] h = refl
single-trim_end (c ∷ s) h =
    single-trim_last c (trim_end s) (ground (arith, single-trim_end s, starts-trim_end s))

ends-trim_end : (s : Text) → ends_black (trim_end s) ≡ true
unfolding trim_end
ends-trim_end [] = refl
ends-trim_end (c ∷ s) = ends-trim_last c (trim_end s) (ends-trim_end s)
  where
    ends-trim_last : (d : ℕ) (t : Text) → ends_black t ≡ true → ends_black (trim_last d t) ≡ true
    ends-trim_last d [] k = ground arith
    ends-trim_last d (e ∷ t) k = k

starts_black-trim_end : (s : Text) → starts_black s ≡ true → starts_black (trim_end s) ≡ true
unfolding trim_end
starts_black-trim_end [] h = refl
starts_black-trim_end (c ∷ s) h = starts-trim_last c (trim_end s) h
  where
    starts-trim_last :
        (d : ℕ) (t : Text) → starts_black (d ∷ t) ≡ true → starts_black (trim_last d t) ≡ true
    starts-trim_last d [] k = ground arith
    starts-trim_last d (e ∷ t) k = k

length-take-le : (n : ℕ) (s : Text) → length (take n s) ≤ n
length-take-le ℕ.zero s = omega arith
length-take-le (ℕ.suc n) [] = omega arith
length-take-le (ℕ.suc n) (c ∷ s) = omega (arith, length-take-le n s)

all-take-append :
    (p : ℕ → Bool) (n : ℕ) (s t : Text)
    → all p s ≡ true
    → all p t ≡ true
    → all p (take n s ++ t) ≡ true
all-take-append p ℕ.zero s t h k = k
all-take-append p (ℕ.suc n) [] t h k = k
all-take-append p (ℕ.suc n) (c ∷ s) t h k = ground (arith, all-take-append p n s t)

starts-take-append :
    (n : ℕ) (s t : Text)
    → starts_with_space t ≡ false
    → starts_with_space s ≡ false
    → starts_with_space (take n s ++ t) ≡ false
starts-take-append ℕ.zero s t h k = h
starts-take-append (ℕ.suc n) [] t h k = h
starts-take-append (ℕ.suc n) (c ∷ s) t h k = k

single-take-append :
    (n : ℕ) (s t : Text)
    → is_single_spaced s ≡ true
    → is_single_spaced t ≡ true
    → starts_with_space t ≡ false
    → is_single_spaced (take n s ++ t) ≡ true
single-take-append ℕ.zero s t h k e = k
single-take-append (ℕ.suc n) [] t h k e = k
single-take-append (ℕ.suc n) (c ∷ s) t h k e =
    ground (arith, single-take-append n s t, starts-take-append n s t e)

ends-append : (s t : Text) (c : ℕ) → ends_black (s ++ (c ∷ t)) ≡ ends_black (c ∷ t)
ends-append [] t c = refl
ends-append (d ∷ []) t c = refl
ends-append (d ∷ e ∷ s) t c = ends-append (e ∷ s) t c

-- What holds before the cut holds after it, with the length.
limit-IsOneLine :
    (s : Text)
    → all is_unbroken s ≡ true
    → is_single_spaced s ≡ true
    → starts_black s ≡ true
    → ends_black s ≡ true
    → IsOneLine (limit s)
unfolding limit text is_whitespace
limit-IsOneLine s u d b e = elim (Bool-cases (ltb operational_message_max_chars (length s))) [
  | inr small ↦
      rw small (record { unbroken = u; single = d; starts = b; ends = e; short = ground arith })
  | inl large ↦ rw large (record {
    unbroken = all-take-append is_unbroken 2045 s (text "...") u refl;
    single = single-take-append 2045 s (text "...") d refl refl;
    starts = starts-cut s b (ground arith);
    ends = ends-append (take 2045 s) (46 ∷ 46 ∷ []) 46;
    short = omega (arith, length-append (take 2045 s) (46 ∷ 46 ∷ 46 ∷ []), length-take-le 2045 s);
  })
]
  where
    starts-cut :
        (t : Text)
        → starts_black t ≡ true
        → 2048 < length t
        → starts_black (take 2045 t ++ text "...") ≡ true
    starts-cut [] h k = absurd (omega arith)
    starts-cut (c ∷ t) h k = h

map-unbreak_same : (s : Text) → all is_unbroken s ≡ true → map unbreak s ≡ s
unfolding unbreak
map-unbreak_same [] h = refl
map-unbreak_same (c ∷ s) h = ground (arith, map-unbreak_same s)

squeeze_same : (s : Text) → is_single_spaced s ≡ true → squeeze s ≡ s
unfolding squeeze
squeeze_same [] h = refl
squeeze_same (c ∷ s) h = ground (arith, squeeze_same s)

trim_start_same : (s : Text) → starts_black s ≡ true → trim_start s ≡ s
unfolding trim_start
trim_start_same [] h = refl
trim_start_same (c ∷ s) h = ground arith

trim_end_same : (s : Text) → ends_black s ≡ true → trim_end s ≡ s
unfolding trim_end
trim_end_same [] h = refl
trim_end_same (c ∷ []) h = ground arith
trim_end_same (c ∷ d ∷ s) h = rw (trim_end_same (d ∷ s) h)

-- The message that an operational error or a reason carries is one line for every input: no tab,
-- carriage return or line feed, no two spaces in a row, no white space at either end, and at most
-- 2048 code units.
pub format-IsOneLine : (raw : Text) → IsOneLine (format_operational_message raw)
unfolding format_operational_message trim
format-IsOneLine raw =
    let u = squeeze (map unbreak raw) in
    let s = trim_start u in
    let a = all-squeeze is_unbroken (map unbreak raw) (all-unbreak raw) in
    limit-IsOneLine (trim_end s) (all-trim_end is_unbroken s (all-trim_start is_unbroken u a))
      (single-trim_end s (single-trim_start u (single-squeeze (map unbreak raw))))
      (starts_black-trim_end s (starts-trim_start u)) (ends-trim_end s)

-- A message that is already one line is left as it is.
pub format_same : (s : Text) → IsOneLine s → format_operational_message s ≡ s
unfolding format_operational_message trim limit
format_same s h =
    rw
      (
        map-unbreak_same s h.unbroken,
        squeeze_same s h.single,
        trim_start_same s h.starts,
        trim_end_same s h.ends,
      )
      (ground (arith, h.short))

-- Formatting a message twice gives what formatting it once gives, also where it was cut.
pub format-format :
    (raw : Text)
    → format_operational_message (format_operational_message raw) ≡ format_operational_message raw
format-format raw = format_same _ (format-IsOneLine raw)
