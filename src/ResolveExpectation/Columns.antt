-- ===== src/ResolveExpectation/Columns.antt =====
-- The columns that the resolver gives: identifiers in strictly ascending order.
use agentskeptic.Prelude.{
  ℕ, ◌+◌, ◌≡◌, refl, true, false, Option, none, some, List, [], ◌∷◌, ◌++◌, map, arith, All,
  Bool-cases, inl, inr, sym, ◌∙◌,
}
use mathlib.Core.Bool.{false≢true}
use mathlib.Core.Path.{subst}
use agentskeptic.Prelude.Sort.{sort, IsSorted, IsOrder, sort-All, sort-IsSorted}
use agentskeptic.Js.{
  Text, text, Runtime, text_eq, text_lt, text_eq_iff, text_lt_trans, text-IsOrder,
}
use agentskeptic.Js.Json.{Json}
use agentskeptic.Types.{IdentityEqPair}
use agentskeptic.Types.Registry.{RegistryStringSpec, RegistryEqualityPair}
use agentskeptic.ResolveExpectation.Outcome.{Outcome, ok, bind-ok, ok-injective, if-ok}
use agentskeptic.ResolveExpectation.Specs.{
  is_ident, check_ident, resolve_column, resolve_string_spec, resolve_table_ident, table_of,
  resolve_key_value,
}
use agentskeptic.ResolveExpectation.Rows.{
  column_le, first_repeated, unless_repeated, normalize_sorted_identity_eq, relabelled, indexed,
  resolve_pair, resolve_pairs, resolve_registry_equality_list,
}

abbrev pub IsIdent : Text → Type 0
IsIdent s = is_ident s ≡ true

abbrev pub Below : Text → Text → Type 0
Below a b = text_lt a b ≡ true

-- Each text is below all that follow it, so that none occurs twice.
abbrev pub IsAscending : List Text → Type 0
IsAscending [] = Unit
IsAscending (x ∷ xs) = All (Below x) xs × IsAscending xs

text_lt_connex : (a b : Text) → text_lt a b ≡ false → text_lt b a ≡ false → a ≡ b
unfolding text_lt
text_lt_connex [] [] h k = refl
text_lt_connex [] (y ∷ ys) h k = cc h
text_lt_connex (x ∷ xs) [] h k = cc k
text_lt_connex (x ∷ xs) (y ∷ ys) h k = ground (arith, text_lt_connex xs ys)

-- Not above and not equal is below.
pub Below-of_le : (a b : Text) → text_lt b a ≡ false → text_eq b a ≡ false → Below a b
Below-of_le a b h n = elim (Bool-cases (text_lt a b)) [
  | inl e ↦ e
  | inr e ↦ absurd (false≢true (sym n ∙ (text_eq_iff b a).1 (text_lt_connex b a h e)))
]

pub Below-le : (a b c : Text) → Below a b → text_lt c b ≡ false → Below a c
Below-le a b c h k = elim (Bool-cases (text_lt a c)) [
  | inl e ↦ e
  | inr e ↦ absurd (false≢true (sym (text_lt_trans b c a k e) ∙ h))
]

abbrev pub columns : List IdentityEqPair → List Text
columns = map (λ p. p.column)

column_le-IsOrder : IsOrder column_le
column_le-IsOrder = record {
  total = λ a b h. text-IsOrder.total a.column b.column h;
  trans = λ a b c h k. text-IsOrder.trans a.column b.column c.column h k;
}

columns-Below :
    (a b : IdentityEqPair) (pairs : List IdentityEqPair)
    → Below a.column b.column
    → All (λ y. column_le b y ≡ true) pairs
    → All (Below a.column) (columns pairs)
columns-Below a b [] h k = tt
columns-Below a b (p ∷ pairs) h (k, ks) =
    (Below-le a.column b.column p.column h (ground arith), columns-Below a b pairs h ks)

-- A sorted list without equal neighbours ascends.
ascends :
    (pairs : List IdentityEqPair)
    → IsSorted column_le pairs
    → first_repeated pairs ≡ none
    → IsAscending (columns pairs)
unfolding first_repeated
ascends [] h n = tt
ascends (a ∷ []) h n = (tt, tt)
ascends (a ∷ b ∷ pairs) ((le, les), rest) n = elim (Bool-cases (text_eq b.column a.column)) [
  | inl e ↦ let q : some b.column ≡ none = sym (rw e refl) ∙ n in cc q
  | inr e ↦
      let below = Below-of_le a.column b.column (ground arith) e in
      let q : first_repeated (b ∷ pairs) ≡ none = sym (rw e refl) ∙ n in
      ((below, columns-Below a b pairs below rest.0), ascends (b ∷ pairs) rest q)
]

-- What `normalizeSortedIdentityEq` returns: the pairs, sorted, with no column twice.
unless_repeated-ok :
    (label : Text) (sorted : List IdentityEqPair) (o : Option Text) {out : List IdentityEqPair}
    → unless_repeated label sorted o ≡ ok out
    → (o ≡ none) × (sorted ≡ out)
unless_repeated-ok label sorted none h = (refl, cc h)
unless_repeated-ok label sorted (some c) h = cc h

pub normalize-IsAscending :
    (label : Text) (pairs : List IdentityEqPair) {out : List IdentityEqPair}
    → normalize_sorted_identity_eq label pairs ≡ ok out
    → IsAscending (columns out) × (sort column_le pairs ≡ out)
unfolding normalize_sorted_identity_eq
normalize-IsAscending label pairs {out} h =
    let (n, e) = unless_repeated-ok label (sort column_le pairs) _ h in
    let up = ascends (sort column_le pairs) (sort-IsSorted column_le column_le-IsOrder pairs) n in
    (subst (λ x. IsAscending (columns x)) e up, e)

pub normalize-All {κ} :
    (P : IdentityEqPair → Type κ) (label : Text) (pairs : List IdentityEqPair)
    {out : List IdentityEqPair}
    → normalize_sorted_identity_eq label pairs ≡ ok out
    → All P pairs
    → All P out
normalize-All P label pairs h a =
    subst (All P) (normalize-IsAscending label pairs h).1 (sort-All column_le P pairs a)

-- The columns of pairs are identifiers, and ascend.
abbrev pub AreColumns : List IdentityEqPair → Type 0
AreColumns pairs = All (λ p. IsIdent p.column) pairs × IsAscending (columns pairs)

pub normalize-AreColumns :
    (label : Text) (pairs : List IdentityEqPair) {out : List IdentityEqPair}
    → normalize_sorted_identity_eq label pairs ≡ ok out
    → All (λ p. IsIdent p.column) pairs
    → AreColumns out
normalize-AreColumns label pairs h a =
    (normalize-All (λ p. IsIdent p.column) label pairs h a, (normalize-IsAscending label pairs h).0)

module _ (js : Runtime) (params : Json) where
  check_ident-ok :
      (label value : Text) {out : Text} → check_ident js params label value ≡ ok out → IsIdent out
  unfolding check_ident
  check_ident-ok label value h =
      let (t, e) = if-ok (is_ident value) value _ _ h in subst IsIdent e t

  pub resolve_column-IsIdent :
      (label : Text) (spec : RegistryStringSpec) {out : Text}
      → resolve_column js params label spec ≡ ok out
      → IsIdent out
  unfolding resolve_column
  resolve_column-IsIdent label spec h =
      let (v, p, q) =
        bind-ok (resolve_string_spec js params label spec) (check_ident js params label) h in
      check_ident-ok label v q

  pub resolve_table-IsIdent :
      (label : Text) (spec : RegistryStringSpec) {out : Text}
      → resolve_table_ident js params label spec ≡ ok out
      → IsIdent out
  unfolding resolve_table_ident
  resolve_table-IsIdent label spec h =
      let (v, p, q) = bind-ok (table_of js params label spec) (check_ident js params label) h in
      check_ident-ok label v q

  module _ (T : Text → Type 0) (test : Text → Outcome Text)
      (keeps : (c d : Text) → test c ≡ ok d → (c ≡ d) × T d) where
    abbrev pub Tested : IdentityEqPair → Type 0
    Tested p = IsIdent p.column × T p.column

    resolve_pair-Tested :
        (label : Text) (p : RegistryEqualityPair) {out : IdentityEqPair}
        → resolve_pair js params test label p ≡ ok out
        → Tested out
    unfolding resolve_pair
    resolve_pair-Tested label p h =
        let (c, pc, h1) =
          bind-ok (resolve_column js params (label ++ text ".column") p.column) _ h in
        let (d, pd, h2) = bind-ok (test c) _ h1 in
        let (v, pv, h3) =
          bind-ok (relabelled (label ++ text ". ") (resolve_key_value js params p.value)) _ h2 in
        let (same, t) = keeps c d pd in
        subst Tested (ok-injective h3)
          (subst IsIdent same (resolve_column-IsIdent _ p.column pc), t)

    pub resolve_pairs-Tested :
        (name : Text) (i : ℕ) (specs : List RegistryEqualityPair) {out : List IdentityEqPair}
        → resolve_pairs js params test name i specs ≡ ok out
        → All Tested out
    unfolding resolve_pairs
    resolve_pairs-Tested name i [] h = subst (All Tested) (ok-injective h) tt
    resolve_pairs-Tested name i (p ∷ ps) h =
        let (q, pq, h1) = bind-ok (resolve_pair js params test (indexed js params name i) p) _ h in
        let (qs, pqs, h2) = bind-ok (resolve_pairs js params test name (i + 1) ps) _ h1 in
        subst (All Tested) (ok-injective h2)
          (resolve_pair-Tested _ p pq, resolve_pairs-Tested name (i + 1) ps pqs)

  pub plain_pairs-IsIdent :
      (name : Text) (i : ℕ) (specs : List RegistryEqualityPair) {out : List IdentityEqPair}
      → resolve_pairs js params ok name i specs ≡ ok out
      → All (λ p. IsIdent p.column) out
  unfolding resolve_pairs
  plain_pairs-IsIdent name i specs {out} h =
      first_parts out
        (resolve_pairs-Tested (λ c. Unit) ok (λ c d q. (ok-injective q, tt)) name i specs h)
    where
      first_parts :
          (ps : List IdentityEqPair)
          → All (λ (p : IdentityEqPair). IsIdent p.column × Unit {0}) ps
          → All (λ (p : IdentityEqPair). IsIdent p.column) ps
      first_parts [] g = tt
      first_parts (p ∷ ps) ((a, b), gs) = (a, first_parts ps gs)

  pub equality_list-AreColumns :
      (label : Text) (specs : List RegistryEqualityPair) {out : List IdentityEqPair}
      → resolve_registry_equality_list js params label specs ≡ ok out
      → AreColumns out
  unfolding resolve_registry_equality_list
  equality_list-AreColumns label specs h =
      let (raw, p, q) =
        bind-ok (resolve_pairs js params ok (label ++ text "identityEq") 0 specs) _ h in
      normalize-AreColumns label raw q (plain_pairs-IsIdent _ 0 specs p)
