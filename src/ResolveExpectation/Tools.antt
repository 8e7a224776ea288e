-- ===== src/ResolveExpectation/Tools.antt =====
-- The registry by tool: every entry is found, and no tool has two.
use agentskeptic.Prelude.{
  ◌≡◌, refl, Bool, true, false, Option, none, some, List, [], ◌∷◌, ◌++◌, All, Bool-cases, inl, inr,
  ap, ◌∙◌, if◌then◌else◌,
}
use mathlib.Core.Path.{subst}
use agentskeptic.Js.{Text, text_eq, text_eq_iff}
use agentskeptic.Types.Registry.{ToolRegistryEntry}
use agentskeptic.ResolveExpectation.Outcome.{Outcome, ok, thrown, ok-injective}
use agentskeptic.ResolveExpectation.Request.{
  Registry, find_tool, is_some, add_entries, build_registry_map,
}
use agentskeptic.ResolveExpectation.Complete.{Apart}

-- The entry of each tool is found in the registry.
abbrev AreFound : Registry → List ToolRegistryEntry → Type 0
AreFound m = All (λ (e : ToolRegistryEntry). find_tool e.tool_id m ≡ some e)

-- Two entries of different tools.
abbrev pub OtherTool : ToolRegistryEntry → ToolRegistryEntry → Type 0
OtherTool a b = Apart a.tool_id b.tool_id

-- No two entries of the list have the same tool.
abbrev pub HasDistinctTools : List ToolRegistryEntry → Type 0
HasDistinctTools [] = Unit
HasDistinctTools (e ∷ es) = All (OtherTool e) es × HasDistinctTools es

find-append :
    (id key : Text) (e : ToolRegistryEntry) (m : Registry)
    → find_tool id (m ++ (key, e) ∷ []) ≡ (
        if is_some (find_tool id m)
        then find_tool id m
        else if text_eq key id
        then some e
        else none)
unfolding find_tool
find-append id key e [] = refl
find-append id key e ((k, x) ∷ m) = elim (Bool-cases (text_eq k id)) [
  | inl t ↦ rw t refl
  | inr f ↦ rw f (find-append id key e m)
]

none-of : {A : Type 0} (o : Option A) → is_some o ≡ false → o ≡ none
none-of none h = refl
none-of (some a) h = cc h

self_eq : (id : Text) → text_eq id id ≡ true
self_eq id = (text_eq_iff id id).1 refl

if_duplicate-ok :
    (b : Bool) (message : Text) (rest : Outcome Registry) {out : Registry}
    → (if b then thrown message else rest) ≡ ok out
    → (b ≡ false) × (rest ≡ ok out)
if_duplicate-ok true message rest h = cc h
if_duplicate-ok false message rest h = (refl, h)

find-new :
    (e : ToolRegistryEntry) (m : Registry)
    → is_some (find_tool e.tool_id m) ≡ false
    → find_tool e.tool_id (m ++ (e.tool_id, e) ∷ []) ≡ some e
find-new e m h =
    find-append e.tool_id e.tool_id e m
    ∙ ap
        (λ (b : Bool).
          if b then find_tool e.tool_id m else if text_eq e.tool_id e.tool_id then some e else none)
        h
    ∙ ap (λ (b : Bool). if b then some e else none) (self_eq e.tool_id)

find-kept :
    (id : Text) (e x : ToolRegistryEntry) (m : Registry)
    → find_tool id m ≡ some x
    → find_tool id (m ++ (e.tool_id, e) ∷ []) ≡ some x
find-kept id e x m h =
    find-append id e.tool_id e m
    ∙ ap
        (λ (o : Option ToolRegistryEntry).
          if is_some o then o else if text_eq e.tool_id id then some e else none)
        h

add_entries-found :
    (m : Registry) (es : List ToolRegistryEntry) {out : Registry}
    → add_entries m es ≡ ok out
    → ((id : Text) (x : ToolRegistryEntry) → find_tool id m ≡ some x → find_tool id out ≡ some x)
      × AreFound out es
unfolding add_entries
add_entries-found m [] h = (λ id x k. subst (λ o. find_tool id o ≡ some x) (ok-injective h) k, tt)
add_entries-found m (e ∷ es) h =
    let (fresh, rest) =
      if_duplicate-ok (is_some (find_tool e.tool_id m)) _
        (add_entries (m ++ (e.tool_id, e) ∷ []) es) h in
    let (kept, found) = add_entries-found (m ++ (e.tool_id, e) ∷ []) es rest in
    (λ id x k. kept id x (find-kept id e x m k), (kept e.tool_id e (find-new e m fresh), found))

-- No tool of the entries is in the registry yet.
abbrev AreUnknown : Registry → List ToolRegistryEntry → Type 0
AreUnknown m = All (λ (e : ToolRegistryEntry). is_some (find_tool e.tool_id m) ≡ false)

still_unknown :
    (e : ToolRegistryEntry) (m : Registry) (es : List ToolRegistryEntry)
    → AreUnknown m es
    → All (OtherTool e) es
    → AreUnknown (m ++ (e.tool_id, e) ∷ []) es
still_unknown e m [] h k = tt
still_unknown e m (x ∷ es) (h, hs) (k, ks) = (
  ap is_some (find-append x.tool_id e.tool_id e m)
      ∙ ap
          (λ (b : Bool). is_some (
            if b
            then find_tool x.tool_id m
            else if text_eq e.tool_id x.tool_id
            then some e
            else none))
          h
      ∙ ap (λ (b : Bool). is_some (if b then some e else none)) k,
  still_unknown e m es hs ks,
)

add_entries-ok :
    (m : Registry) (es : List ToolRegistryEntry)
    → AreUnknown m es
    → HasDistinctTools es
    → (out : Registry) × (add_entries m es ≡ ok out)
unfolding add_entries
add_entries-ok m [] h k = (m, refl)
add_entries-ok m (e ∷ es) (h, hs) (k, ks) =
    let (out, p) = add_entries-ok (m ++ (e.tool_id, e) ∷ []) es (still_unknown e m es hs k) ks in
    (out, rw h p)

all_unknown : (es : List ToolRegistryEntry) → AreUnknown [] es
unfolding find_tool
all_unknown [] = tt
all_unknown (e ∷ es) = (refl, all_unknown es)

-- A registry is built from every list of entries in which no two have the same tool; and whenever one is built, the entry of each tool
-- of the list is found in it.
pub build_registry_map-finds :
    (entries : List ToolRegistryEntry)
    → (HasDistinctTools entries → (m : Registry) × (build_registry_map entries ≡ ok m))
      × ((m : Registry) → build_registry_map entries ≡ ok m → AreFound m entries)
unfolding build_registry_map
build_registry_map-finds entries = (
  λ h. add_entries-ok [] entries (all_unknown entries) h,
  λ m h. (add_entries-found [] entries h).1,
)
