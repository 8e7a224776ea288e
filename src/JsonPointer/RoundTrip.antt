-- ===== src/JsonPointer/RoundTrip.antt =====
-- A pointer that is written for a path reads the value at that path.
use agentskeptic.Prelude.{
  ℕ, ◌≡◌, refl, false, List, [], ◌∷◌, ◌++◌, map, arith, ◌==◌, if◌then◌else◌, All, Bool-cases, inl,
  inr,
}
use mathlib.Core.List.{append-nil}
use agentskeptic.Js.{Text, Runtime}
use agentskeptic.Js.Json.{Json}
use agentskeptic.ResolveExpectation.Outcome.{ok}
use agentskeptic.JsonPointer.{
  slash, tilde, split_slash, replace_pair, unescape_token, walk, get_pointer,
}

-- RFC 6901, section 3: `~` is written as `~0` and `/` as `~1`.
unfoldable pub escape_token : Text → Text
escape_token [] = []
escape_token (c ∷ s) =
    let rest = escape_token s in
    if c == tilde then tilde ∷ 48 ∷ rest else if c == slash then tilde ∷ 49 ∷ rest else c ∷ rest

-- Each token after a slash.
unfoldable pub pointer_of : List Text → Text
unfolding escape_token
pointer_of [] = []
pointer_of (t ∷ ts) = slash ∷ (escape_token t ++ pointer_of ts)

-- After the first replacement only `~0` is left escaped.
half : Text → Text
half [] = []
half (c ∷ s) = let rest = half s in if c == tilde then tilde ∷ 48 ∷ rest else c ∷ rest

replace-other :
    (a b r x : ℕ) (s : Text)
    → (x == a) ≡ false
    → replace_pair a b r (x ∷ s) ≡ x ∷ replace_pair a b r s
unfolding replace_pair
replace-other a b r x [] h = refl
replace-other a b r x (y ∷ s) h = rw (h, replace_pair)

replace-escape : (t : Text) → replace_pair tilde 49 slash (escape_token t) ≡ half t
unfolding escape_token half replace_pair
replace-escape [] = refl
replace-escape (c ∷ s) = elim (Bool-cases (c == tilde)) [
  | inl e ↦ rw (e, replace-other tilde 49 slash 48 (escape_token s) refl, replace-escape s)
  | inr n ↦ elim (Bool-cases (c == slash)) [
    | inl e ↦ let is_slash : c ≡ slash = ground arith in rw (is_slash, replace-escape s)
    | inr m ↦ rw (n, m, replace-other tilde 49 slash c (escape_token s) n, replace-escape s)
  ]
]

replace-half : (t : Text) → replace_pair tilde 48 tilde (half t) ≡ t
unfolding half replace_pair
replace-half [] = refl
replace-half (c ∷ s) = elim (Bool-cases (c == tilde)) [
  | inl e ↦ let is_tilde : c ≡ tilde = ground arith in rw (is_tilde, replace-half s)
  | inr n ↦ rw (n, replace-other tilde 48 tilde c (half s) n, replace-half s)
]

unescape-escape : (t : Text) → unescape_token (escape_token t) ≡ t
unfolding unescape_token
unescape-escape t = rw (replace-escape t) (replace-half t)

unescape-tokens : (ts : List Text) → map unescape_token (map escape_token ts) ≡ ts
unescape-tokens [] = refl
unescape-tokens (t ∷ ts) = rw (unescape-escape t, unescape-tokens ts)

-- Escaped text holds no slash.
abbrev LacksSlash : Text → Type 0
LacksSlash = All (λ c. (c == slash) ≡ false)

escape-LacksSlash : (t : Text) → LacksSlash (escape_token t)
unfolding escape_token
escape-LacksSlash [] = tt
escape-LacksSlash (c ∷ s) = elim (Bool-cases (c == tilde)) [
  | inl e ↦ rw e (refl, (refl, escape-LacksSlash s))
  | inr n ↦ elim (Bool-cases (c == slash)) [
    | inl e ↦ rw (n, e) (refl, (refl, escape-LacksSlash s))
    | inr m ↦ rw (n, m) (m, escape-LacksSlash s)
  ]
]

split-last : (e : Text) → LacksSlash e → split_slash e ≡ e ∷ []
unfolding split_slash
split-last [] h = refl
split-last (c ∷ s) (h, hs) = rw (h, split-last s hs)

split-piece : (e p : Text) → LacksSlash e → split_slash (e ++ slash ∷ p) ≡ e ∷ split_slash p
unfolding split_slash
split-piece [] p h = refl
split-piece (c ∷ s) p (h, hs) = rw (h, split-piece s p hs)

split-pointer :
    (t : Text) (ts : List Text)
    → split_slash (escape_token t ++ pointer_of ts) ≡ map escape_token (t ∷ ts)
unfolding pointer_of
split-pointer t [] = rw append-nil (split-last (escape_token t) (escape-LacksSlash t))
split-pointer t (u ∷ us) = rw (
  split-piece (escape_token t) (escape_token u ++ pointer_of us) (escape-LacksSlash t),
  split-pointer u us,
)

-- The pointer that is written for a path, with `~` and `/` escaped in its tokens, is never refused and reads what a walk along
-- the path reads, whatever the tokens hold; that is the whole document for the empty path.
pub get_pointer-of :
    (js : Runtime) (doc : Json) (path : List Text)
    → get_pointer js doc (pointer_of path) ≡ ok (walk doc path)
unfolding get_pointer pointer_of walk
get_pointer-of js doc [] = refl
get_pointer-of js doc (t ∷ ts) = rw (split-pointer t ts, unescape-tokens (t ∷ ts))
