-- ===== src/ResolveExpectation/Complete.antt =====
-- Every effect and every tool of the registry is kept, once.
use agentskeptic.Prelude.{◌≡◌, Bool, false, List, map, All}
use agentskeptic.Prelude.Sort.{Pairwise}
use agentskeptic.Js.{Text, text_eq}
use agentskeptic.Js.Json.{Json}
use agentskeptic.Types.{ResolvedEffect}
use agentskeptic.ResolveExpectation.Request.{seen_before, effect_le}

-- The two texts differ.
abbrev pub Apart : Text → Text → Type 0
Apart a b = text_eq a b ≡ false

abbrev ids : List ResolvedEffect → List Text
ids = map (λ (e : ResolvedEffect). e.id)

-- What the loop has seen of the ids.
abbrev AreNew : List Text → List ResolvedEffect → Type 0
AreNew seen es =
    All (λ (e : ResolvedEffect). seen_before e.id seen ≡ false) es
    × Pairwise effect_le (λ (a b : ResolvedEffect). Apart a.id b.id) es
