-- ===== src/ResolveExpectation/Template.antt =====
-- resolveExpectation.ts: `renderIntendedEffect`. A hole `{/…}` of the template has no brace inside and a pointer of at least
-- two units. `stringify` is `JSON.stringify`.
use agentskeptic.Prelude.{Option, none, some, ℕ, [], ◌∷◌, ◌++◌, ◌==◌, if◌then◌else◌}
use agentskeptic.Js.{Text, Runtime, text}
use agentskeptic.Js.Json.{Json, undefined}
use agentskeptic.JsonPointer.{slash, get_pointer}
use agentskeptic.ResolveExpectation.Outcome.{Outcome, ok, refused, thrown}

abbrev pub open_brace : ℕ
open_brace = 123

abbrev pub close_brace : ℕ
close_brace = 125

module _ (js : Runtime) (stringify : Json → Text) (params : Json) where
  abbrev pub shown : Outcome Json → Text
  shown (ok undefined) = text "MISSING"
  shown (ok v) = stringify v
  shown (refused code message) = []
  shown (thrown message) = []

  -- What stands for `{body}`: the value at a pointer, or the text itself.
  abbrev pub filled : Text → Text
  filled [] = open_brace ∷ close_brace ∷ []
  filled (c ∷ []) = open_brace ∷ c ∷ close_brace ∷ []
  filled (c ∷ d ∷ s) =
      if c == slash
      then shown (get_pointer js params (c ∷ d ∷ s))
      else open_brace ∷ (c ∷ d ∷ s) ++ close_brace ∷ []

  -- Outside a brace, or after an open brace and the units `body`.
  unfoldable pub render_from : Option Text → Text → Text
  render_from none [] = []
  render_from (some body) [] = open_brace ∷ body
  render_from none (c ∷ s) =
      let inside = render_from (some []) s in
      let outside = render_from none s in if c == open_brace then inside else c ∷ outside
  render_from (some body) (c ∷ s) =
      let closed = render_from none s in
      let opened = render_from (some []) s in
      let longer = render_from (some (body ++ c ∷ [])) s in
      if c == close_brace
      then filled body ++ closed
      else if c == open_brace
      then open_brace ∷ (body ++ opened)
      else longer

  unfoldable pub render_intended_effect : Text → Text
  unfolding render_from
  render_intended_effect template = render_from none template
