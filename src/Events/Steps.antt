-- ===== src/Events/Steps.antt =====
-- What the logical steps of a workflow are.
use agentskeptic.Prelude.{
  ℕ, ◌≡◌, ◌≤◌, ◌<◌, refl, Bool, true, false, not, List, [], ◌∷◌, ◌++◌, map, any, length, arith, All,
  Bool-cases, inl, inr, leb, ◌==◌, ap, sym, ◌∙◌,
}
use agentskeptic.Prelude.Sort.{sort, IsSorted, sort-same, sort-IsSorted}
use agentskeptic.Js.{Runtime}
use agentskeptic.Events.{seq_le, stable_sort_events_by_seq}
use agentskeptic.Events.Integrity.{seq_le-IsOrder}
use agentskeptic.Events.Plan.{
  Event, LogicalStepPlan, NonEmpty, events_of, BySeq, push, group, get_group, step_of, steps_of,
  keys_of, plan_logical_steps, observations_match_for_divergence,
}
use mathlib.Core.List.{append-nil, append_assoc}
use agentskeptic.Js.{text_eq_iff}
use agentskeptic.Prelude.{◌||◌}
use agentskeptic.Events.Params.{canonical_json_for_params}

abbrev pub HasSeq : ℕ → List Event → Type 0
HasSeq k = All (λ (e : Event). e.seq ≡ k)

abbrev KeysAbove : ℕ → BySeq → Type 0
KeysAbove k = All (λ (p : ℕ × NonEmpty). k < p.0)

abbrev KeysTo : ℕ → BySeq → Type 0
KeysTo n = All (λ (p : ℕ × NonEmpty). p.0 ≤ n)

-- The keys ascend, and each list holds events of its key.
abbrev IsGrouped : BySeq → Type 0
IsGrouped [] = Unit
IsGrouped ((k, obs) ∷ m) = KeysAbove k m × HasSeq k (events_of obs) × IsGrouped m

abbrev all_events : BySeq → List Event
all_events [] = []
all_events ((k, obs) ∷ m) = events_of obs ++ all_events m

HasSeq-append : (k : ℕ) (xs ys : List Event) → HasSeq k xs → HasSeq k ys → HasSeq k (xs ++ ys)
HasSeq-append k [] ys h g = g
HasSeq-append k (x ∷ xs) ys (h, hs) g = (h, HasSeq-append k xs ys hs g)

KeysAbove-push :
    (k : ℕ) (e : Event) (m : BySeq) → k < e.seq → KeysAbove k m → KeysAbove k (push e m)
unfolding push
KeysAbove-push k e [] h g = (h, tt)
KeysAbove-push k e ((j, obs) ∷ m) h (g, gs) = elim (Bool-cases (j == e.seq)) [
  | inl q ↦ rw q (g, gs)
  | inr q ↦ rw q (g, KeysAbove-push k e m h gs)
]

no_more_keys : (k n : ℕ) (m : BySeq) → n ≤ k → KeysAbove k m → KeysTo n m → m ≡ []
no_more_keys k n [] h a b = refl
no_more_keys k n (p ∷ m) h (a, above) (b, below) = absurd (omega arith)

KeysTo-later : (n k : ℕ) (m : BySeq) → n ≤ k → KeysTo n m → KeysTo k m
KeysTo-later n k [] h g = tt
KeysTo-later n k (p ∷ m) h (g, gs) = (omega arith, KeysTo-later n k m h gs)

push-IsGrouped :
    (e : Event) (m : BySeq)
    → IsGrouped m
    → KeysTo e.seq m
    → IsGrouped (push e m)
      × KeysTo e.seq (push e m)
      × (all_events (push e m) ≡ all_events m ++ e ∷ [])
unfolding push
push-IsGrouped e [] h g = ((tt, (refl, tt), tt), (omega arith, tt), refl)
push-IsGrouped e ((k, (before, last)) ∷ m) (above, seqs, h) (g, gs) =
    elim (Bool-cases (k == e.seq)) [
      | inl q ↦
          let same : k ≡ e.seq = ground arith in
          let ends : m ≡ [] = no_more_keys k e.seq m (omega arith) above gs in
          rw (q, ends)
            (
              (tt, HasSeq-append k (before ++ last ∷ []) (e ∷ []) seqs (sym same, tt), tt),
              (g, tt),
              append-nil (before ++ last ∷ [] ++ e ∷ [])
                  ∙ sym (ap (λ (l : List Event). l ++ e ∷ []) (append-nil (before ++ last ∷ []))),
            )
      | inr q ↦
          let (grouped, bounded, kept) = push-IsGrouped e m h gs in
          rw q (
            (KeysAbove-push k e m (ground arith) above, seqs, grouped),
            (g, bounded),
            ap (λ (l : List Event). (before ++ last ∷ []) ++ l) kept
                ∙ sym (append_assoc (before ++ last ∷ []) (all_events m) (e ∷ [])),
          )
    ]

-- Grouping sorted events keeps them in order.
group-IsGrouped :
    (m : BySeq) (evs : List Event) (n : ℕ)
    → IsGrouped m
    → KeysTo n m
    → All (λ (e : Event). leb n e.seq ≡ true) evs
    → IsSorted seq_le evs
    → IsGrouped (group m evs) × (all_events (group m evs) ≡ all_events m ++ evs)
unfolding group
group-IsGrouped m [] n h g from sorted = (h, sym (append-nil (all_events m)))
group-IsGrouped m (e ∷ evs) n h g (f, from) (next, sorted) =
    let (grouped, bounded, kept) = push-IsGrouped e m h (KeysTo-later n e.seq m (ground arith) g) in
    let (all_grouped, all_kept) =
      group-IsGrouped (push e m) evs e.seq grouped bounded next sorted in
    (
      all_grouped,
      all_kept ∙ ap (λ (l : List Event). l ++ evs) kept ∙ append_assoc (all_events m) (e ∷ []) evs,
    )

abbrev SeqsAbove : ℕ → List ℕ → Type 0
SeqsAbove k = All (λ (n : ℕ). k < n)

keys_of-above : (k : ℕ) (m : BySeq) → KeysAbove k m → SeqsAbove k (keys_of m)
keys_of-above k [] h = tt
keys_of-above k (p ∷ m) (h, hs) = (h, keys_of-above k m hs)

abbrev pub Ordered : List ℕ → Type 0
Ordered [] = Unit
Ordered (n ∷ ns) = SeqsAbove n ns × Ordered ns

keys_of-Ordered : (m : BySeq) → IsGrouped m → Ordered (keys_of m)
keys_of-Ordered [] h = tt
keys_of-Ordered ((k, obs) ∷ m) (above, seqs, h) = (keys_of-above k m above, keys_of-Ordered m h)

Ordered-IsSorted : (ns : List ℕ) → Ordered ns → IsSorted leb ns
Ordered-IsSorted [] h = tt
Ordered-IsSorted (n ∷ ns) (above, h) = (weaken ns above, Ordered-IsSorted ns h)
  where
    weaken : (ks : List ℕ) → SeqsAbove n ks → All (λ k. leb n k ≡ true) ks
    weaken [] g = tt
    weaken (k ∷ ks) (g, gs) = (ground arith, weaken ks gs)

abbrev pub observations_of : List LogicalStepPlan → List Event
observations_of [] = []
observations_of (s ∷ ss) = s.observations ++ observations_of ss

module _ (js : Runtime) where
  abbrev as_steps : BySeq → List LogicalStepPlan
  as_steps [] = []
  as_steps ((k, obs) ∷ m) = step_of js k obs ∷ as_steps m

  steps_of-later :
      (k : ℕ) (obs : NonEmpty) (m : BySeq) (ns : List ℕ)
      → SeqsAbove k ns
      → steps_of js ((k, obs) ∷ m) ns ≡ steps_of js m ns
  unfolding steps_of get_group
  steps_of-later k obs m [] h = refl
  steps_of-later k obs m (n ∷ ns) (h, hs) =
      let other : (k == n) ≡ false = ground arith in rw (other, steps_of-later k obs m ns hs)

  steps_of-keys : (m : BySeq) → IsGrouped m → steps_of js m (keys_of m) ≡ as_steps m
  unfolding steps_of get_group
  steps_of-keys [] h = refl
  steps_of-keys ((k, obs) ∷ m) (above, seqs, h) =
      let own : (k == k) ≡ true = ground arith in
      rw (own, steps_of-later k obs m (keys_of m) (keys_of-above k m above), steps_of-keys m h)

  -- A step of the observations that it lists.
  pub record IsStep (s : LogicalStepPlan) : Type 0 where
    pub own_seq : HasSeq s.seq s.observations
    pub counted : s.repeat_observation_count ≡ length s.observations
    pub ends : (before : List Event) × (s.observations ≡ before ++ s.last ∷ [])
    pub diverges_iff :
        s.divergent ≡ any (λ o. not (observations_match_for_divergence js o s.last)) s.observations

  matches_itself : (e : Event) → observations_match_for_divergence js e e ≡ true
  unfolding observations_match_for_divergence
  matches_itself e =
      rw
        (
          (text_eq_iff e.tool_id e.tool_id).1 refl,
          (text_eq_iff (canonical_json_for_params js e.params)
                (canonical_json_for_params js e.params)).1
              refl,
        )
        refl

  any-append_last :
      (p : Event → Bool) (xs : List Event) (x : Event)
      → p x ≡ false
      → any p xs ≡ any p (xs ++ x ∷ [])
  any-append_last p [] x h = ground arith
  any-append_last p (y ∷ xs) x h = ap (λ (b : Bool). p y || b) (any-append_last p xs x h)

  as_steps-IsStep : (m : BySeq) → IsGrouped m → All IsStep (as_steps m)
  as_steps-IsStep [] h = tt
  as_steps-IsStep ((k, (before, last)) ∷ m) (above, seqs, h) = (
    record {
      own_seq = seqs;
      counted = refl;
      ends = (before, refl);
      diverges_iff =
          any-append_last (λ o. not (observations_match_for_divergence js o last)) before last
            (ap not (matches_itself last));
    },
    as_steps-IsStep m h,
  )

  as_steps-observations : (m : BySeq) → observations_of (as_steps m) ≡ all_events m
  as_steps-observations [] = refl
  as_steps-observations ((k, obs) ∷ m) =
      ap (λ (l : List Event). events_of obs ++ l) (as_steps-observations m)

  as_steps-seqs : (m : BySeq) → map (λ (s : LogicalStepPlan). s.seq) (as_steps m) ≡ keys_of m
  as_steps-seqs [] = refl
  as_steps-seqs (p ∷ m) = ap (λ (l : List ℕ). p.0 ∷ l) (as_steps-seqs m)

from_zero : (evs : List Event) → All (λ (e : Event). leb 0 e.seq ≡ true) evs
from_zero [] = tt
from_zero (e ∷ evs) = (ground arith, from_zero evs)

-- The logical steps of observed events have strictly ascending `seq`s, and one after the other they list the events as
-- the stable sort does, so that none is lost or doubled; each step lists events of its own `seq`, counts
-- them, and ends with the one that it names as last; and it is divergent exactly when some of its events differs
-- from that one in its tool or its canonical parameters.
pub plan-IsStep :
    (js : Runtime) (events : List Event)
    → let steps = plan_logical_steps js events in
      Ordered (map (λ (s : LogicalStepPlan). s.seq) steps)
      × (observations_of steps ≡ stable_sort_events_by_seq events)
      × All (IsStep js) steps
unfolding plan_logical_steps stable_sort_events_by_seq
plan-IsStep js events =
    let (h, kept) =
      group-IsGrouped [] (sort seq_le events) 0 tt tt (from_zero (sort seq_le events))
        (sort-IsSorted seq_le seq_le-IsOrder events) in
    let m = group [] (sort seq_le events) in
    let sorted = sort-same leb (keys_of m) (Ordered-IsSorted (keys_of m) (keys_of-Ordered m h)) in
    let same : steps_of js m (sort leb (keys_of m)) ≡ as_steps js m =
      ap (steps_of js m) sorted ∙ steps_of-keys js m h in
    rw same (
      rw (as_steps-seqs js m) (keys_of-Ordered m h),
      as_steps-observations js m ∙ kept,
      as_steps-IsStep js m h,
    )
