-- ===== src/Events/Integrity.antt =====
-- The order that the events are prepared in, and when it is reported as irregular.
use agentskeptic.Prelude.{
  ℕ, ◌≡◌, ◌↔◌, refl, Bool, true, false, none, some, List, [], ◌∷◌, ◌++◌, arith, All, Bool-cases,
  inl, inr, leb, ltb, ◌==◌, keep, if◌then◌else◌, sym, ap, ◌∙◌,
}
use agentskeptic.Js.{Text, Number, Runtime}
use agentskeptic.Prelude.Sort.{sort, insert, IsSorted, IsOrder, sort-perm, sort-IsSorted, sort-same}
use agentskeptic.Types.{Reason, normal}
use agentskeptic.Events.{
  ToolObservedEvent, seq_le, stable_sort_events_by_seq, capture_irregular, times_go_back,
  timestamp_reasons, capture_reasons, integrity_of, analyze_event_sequence_integrity,
  prepare_workflow_events,
}
use mathlib.Core.List.{Perm}
use mathlib.Core.Bool.{true≢false}

module _ {P : Type 0} where
  pub seq_le-IsOrder : IsOrder (seq_le {P = P})
  seq_le-IsOrder = record { total = λ a b h. ground arith; trans = λ a b c h k. ground arith }

  abbrev FromSeq : ℕ → List (ToolObservedEvent P) → Type 0
  FromSeq n = All (λ (e : ToolObservedEvent P). leb n e.seq ≡ true)

  from_earlier :
      (n m : ℕ) (evs : List (ToolObservedEvent P)) → leb n m ≡ true → FromSeq m evs → FromSeq n evs
  from_earlier n m [] h k = tt
  from_earlier n m (e ∷ evs) h (k, ks) = (ground arith, from_earlier n m evs h ks)

  capture_from :
      (n : ℕ) (evs : List (ToolObservedEvent P))
      → (capture_irregular (some n) evs ≡ false) ↔ (FromSeq n evs × IsSorted seq_le evs)
  unfolding capture_irregular
  capture_from n [] = (λ h. (tt, tt), λ h. refl)
  capture_from n (e ∷ evs) = elim (Bool-cases (ltb e.seq n)) [
    | inl early ↦
        (λ h. absurd (true≢false (sym (rw early refl) ∙ h)), λ ((h, hs), k). absurd (ground arith))
    | inr late ↦
        let rest = capture_from e.seq evs in
        (
          λ h.
              let (a, b) = rest.0 (rw late at h) in
              ((ground arith, from_earlier n e.seq evs (ground arith) a), (a, b)),
          λ (h, k). rw late (rest.1 k),
        )
  ]

  capture_iff :
      (evs : List (ToolObservedEvent P))
      → (capture_irregular none evs ≡ false) ↔ IsSorted seq_le evs
  unfolding capture_irregular
  capture_iff [] = (λ h. tt, λ h. refl)
  capture_iff (e ∷ evs) = capture_from e.seq evs

  -- The events with one `seq`, in order.
  abbrev pub with_seq : ℕ → List (ToolObservedEvent P) → List (ToolObservedEvent P)
  with_seq n = keep (λ (e : ToolObservedEvent P). e.seq == n)

  with_seq-insert :
      (n : ℕ) (x : ToolObservedEvent P) (evs : List (ToolObservedEvent P))
      → with_seq n (insert seq_le x evs) ≡ with_seq n (x ∷ evs)
  unfolding insert
  with_seq-insert n x [] = refl
  with_seq-insert n x (y ∷ evs) = ground (arith, with_seq-insert n x evs)

  with_seq-sort :
      (n : ℕ) (evs : List (ToolObservedEvent P)) → with_seq n (sort seq_le evs) ≡ with_seq n evs
  unfolding sort
  with_seq-sort n [] = refl
  with_seq-sort n (x ∷ evs) =
      with_seq-insert n x (sort seq_le evs)
      ∙ ap (λ (r : List (ToolObservedEvent P)). if x.seq == n then x ∷ r else r)
          (with_seq-sort n evs)

-- What preparing a captured list gives: the events in ascending order, each `seq` with its events in capture order.
pub record IsPrepared {P : Type 0} (capture sorted : List (ToolObservedEvent P)) : Type 0 where
  pub ascending : IsSorted seq_le sorted
  pub moved : Perm sorted capture
  pub stable : (n : ℕ) → with_seq n sorted ≡ with_seq n capture

integrity_iff :
    (c : Bool) (ts : List Reason)
    → (integrity_of (capture_reasons c ++ ts) ≡ normal) ↔ ((c ≡ false) × (ts ≡ []))
integrity_iff true ts = (λ h. cc h, λ (h, k). cc h)
integrity_iff false [] = (λ h. (refl, refl), λ h. refl)
integrity_iff false (r ∷ rs) = (λ h. cc h, λ (h, k). cc k)

none_or_more :
    (b : Bool) (r : Reason) (rs : List Reason) (T : Type 0)
    → (rs ≡ []) ↔ T
    → ((if b then r ∷ [] else rs) ≡ []) ↔ ((b ≡ false) × T)
none_or_more true r rs T h = (λ k. cc k, λ (k, t). cc k)
none_or_more false r rs T h = (λ k. (refl, h.0 k), λ (k, t). h.1 t)

module _ {P : Type 0} (js : Runtime) (date_parse : Text → Number) where
  -- No known time is before that of the event before it.
  abbrev pub TimesInOrder : List (ToolObservedEvent P) → Type 0
  TimesInOrder [] = Unit
  TimesInOrder (a ∷ []) = Unit
  TimesInOrder (a ∷ b ∷ evs) = (times_go_back js date_parse a b ≡ false) × TimesInOrder (b ∷ evs)

  timestamp_iff :
      (evs : List (ToolObservedEvent P))
      → (timestamp_reasons js date_parse evs ≡ []) ↔ TimesInOrder evs
  unfolding timestamp_reasons
  timestamp_iff [] = (λ h. tt, λ h. refl)
  timestamp_iff (a ∷ []) = (λ h. tt, λ h. refl)
  timestamp_iff (a ∷ b ∷ evs) = none_or_more _ _ _ _ (timestamp_iff (b ∷ evs))

  analysis_iff :
      (evs : List (ToolObservedEvent P))
      → (analyze_event_sequence_integrity js date_parse evs ≡ normal)
        ↔ (IsSorted seq_le evs × TimesInOrder (stable_sort_events_by_seq evs))
  unfolding analyze_event_sequence_integrity stable_sort_events_by_seq sort
  analysis_iff [] = (λ h. (tt, tt), λ h. refl)
  analysis_iff (e ∷ evs) =
      let whole =
        integrity_iff (capture_irregular none (e ∷ evs))
          (timestamp_reasons js date_parse (sort seq_le (e ∷ evs))) in
      let captured = capture_iff (e ∷ evs) in
      let timed = timestamp_iff (sort seq_le (e ∷ evs)) in
      (
        λ h. let (a, b) = whole.0 h in (captured.0 a, timed.0 b),
        λ (a, b). whole.1 (captured.1 a, timed.1 b),
      )

-- Preparing the events of a workflow gives all of them and no others, in ascending order of `seq`, with those of one
-- `seq` in the order of capture. Their sequence is reported as normal exactly when the captured `seq`s never
-- decrease and no event has a known time before that of the event before it in the prepared order; and then the
-- prepared order is the order of capture.
pub prepare-IsPrepared :
    {P : Type 0} (js : Runtime) (date_parse : Text → Number) (capture : List (ToolObservedEvent P))
    → let (sorted, integrity) = prepare_workflow_events js date_parse capture in
      IsPrepared capture sorted
      × ((integrity ≡ normal) ↔ (IsSorted seq_le capture × TimesInOrder js date_parse sorted))
      × (integrity ≡ normal → sorted ≡ capture)
unfolding prepare_workflow_events stable_sort_events_by_seq
prepare-IsPrepared js date_parse capture = (
  record {
    ascending = sort-IsSorted seq_le seq_le-IsOrder capture;
    moved = sort-perm seq_le capture;
    stable = λ n. with_seq-sort n capture;
  },
  analysis_iff js date_parse capture,
  λ h. sort-same seq_le capture ((analysis_iff js date_parse capture).0 h).0,
)
