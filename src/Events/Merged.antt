-- ===== src/Events/Merged.antt =====
-- What the browser's list of events promises: order without duplicates, and nothing lost.
use agent_reliability_platfo.Base.{
  ℕ, ◌≤◌, ◌≡◌, refl, Bool, true, false, ◌&&◌, ◌||◌, Option, some, List, [], ◌∷◌, ◌++◌, arith, not,
  ◌==◌, ltb, sort_by, insert_by,
}
use agent_reliability_platfo.Store.Rows.{TraceEvent}
use agent_reliability_platfo.Events.Sse.{event_sequence}
use agent_reliability_platfo.Events.Merge.{events_or_none, has_sequence, merge_events, receive_all}

-- Each sequence is greater than the ones before it.
abbrev pub is_above : ℕ → List TraceEvent → Bool
is_above k [] = true
is_above k (e ∷ es) = ltb k e.run_sequence && is_above e.run_sequence es

abbrev pub is_ascending : List TraceEvent → Bool
is_ascending [] = true
is_ascending (e ∷ es) = is_above e.run_sequence es

-- Sorting a list in order with one event behind it puts the event in its place.
insert_by-has :
    (k : ℕ) (e : TraceEvent) (es : List TraceEvent)
    → has_sequence k (insert_by event_sequence e es) ≡ e.run_sequence == k || has_sequence k es
unfolding insert_by
insert_by-has k e [] = refl
insert_by-has k e (x ∷ es) = ground (arith, insert_by-has k e es)

sort_by-has :
    (k : ℕ) (es : List TraceEvent) → has_sequence k (sort_by event_sequence es) ≡ has_sequence k es
unfolding sort_by
sort_by-has k [] = refl
sort_by-has k (e ∷ es) =
    ground (arith, sort_by-has k es, insert_by-has k e (sort_by event_sequence es))

has_sequence-append :
    (k : ℕ) (es fs : List TraceEvent)
    → has_sequence k (es ++ fs) ≡ has_sequence k es || has_sequence k fs
has_sequence-append k [] fs = refl
has_sequence-append k (e ∷ es) fs = ground (arith, has_sequence-append k es fs)

insert_by-is_above :
    (k : ℕ) (e : TraceEvent) (es : List TraceEvent)
    → is_above k es ≡ true
    → ltb k e.run_sequence ≡ true
    → has_sequence e.run_sequence es ≡ false
    → is_above k (insert_by event_sequence e es) ≡ true
unfolding insert_by
insert_by-is_above k e [] h above fresh = ground arith
insert_by-is_above k e (x ∷ es) h above fresh =
    ground (arith, insert_by-is_above x.run_sequence e es)

insert_by-is_ascending :
    (e : TraceEvent) (es : List TraceEvent)
    → is_ascending es ≡ true
    → has_sequence e.run_sequence es ≡ false
    → is_ascending (insert_by event_sequence e es) ≡ true
unfolding insert_by
insert_by-is_ascending e [] h fresh = refl
insert_by-is_ascending e (x ∷ es) h fresh = ground (arith, insert_by-is_above x.run_sequence e es)

-- All different from one another.
abbrev is_distinct : List TraceEvent → Bool
is_distinct [] = true
is_distinct (e ∷ es) = not (has_sequence e.run_sequence es) && is_distinct es

sort_by-is_ascending :
    (es : List TraceEvent) → is_distinct es ≡ true → is_ascending (sort_by event_sequence es) ≡ true
unfolding sort_by
sort_by-is_ascending [] h = refl
sort_by-is_ascending (e ∷ es) h = ground (
  arith,
  sort_by-is_ascending es,
  sort_by-has e.run_sequence es,
  insert_by-is_ascending e (sort_by event_sequence es),
)

above_absent :
    (j k : ℕ) (es : List TraceEvent) → is_above k es ≡ true → j ≤ k → has_sequence j es ≡ false
above_absent j k [] h below = refl
above_absent j k (e ∷ es) h below = ground (arith, above_absent j e.run_sequence es)

above_distinct : (k : ℕ) (es : List TraceEvent) → is_above k es ≡ true → is_distinct es ≡ true
above_distinct k [] h = refl
above_distinct k (e ∷ es) h =
    ground (arith, above_distinct e.run_sequence es, above_absent e.run_sequence e.run_sequence es)

ascending_distinct : (es : List TraceEvent) → is_ascending es ≡ true → is_distinct es ≡ true
ascending_distinct [] h = refl
ascending_distinct (e ∷ es) h =
    ground (arith, above_distinct e.run_sequence es, above_absent e.run_sequence e.run_sequence es)

append_distinct :
    (e : TraceEvent) (es : List TraceEvent)
    → is_distinct es ≡ true
    → has_sequence e.run_sequence es ≡ false
    → is_distinct (es ++ e ∷ []) ≡ true
append_distinct e [] h fresh = refl
append_distinct e (x ∷ es) h fresh =
    ground (arith, append_distinct e es, has_sequence-append x.run_sequence es (e ∷ []))

-- Merging keeps a list in strictly ascending order, and adds the sequence that came in and no other.
merge_events-lem :
    (existing : Option (List TraceEvent)) (incoming : TraceEvent) (k : ℕ)
    → is_ascending (events_or_none existing) ≡ true
    → (is_ascending (merge_events existing incoming) ≡ true)
      × (has_sequence k (merge_events existing incoming)
          ≡ has_sequence k (events_or_none existing) || incoming.run_sequence == k)
unfolding merge_events
merge_events-lem existing incoming k h = ground (
  arith,
  ascending_distinct (events_or_none existing),
  append_distinct incoming (events_or_none existing),
  sort_by-is_ascending (events_or_none existing ++ incoming ∷ []),
  sort_by-has k (events_or_none existing ++ incoming ∷ []),
  has_sequence-append k (events_or_none existing) (incoming ∷ []),
)

-- Whatever comes in, in any order and any number of times, the browser's list stays in strictly ascending
-- order of the sequences, so without duplicates, and it has exactly the sequences that it had before and
-- those that came in.
pub receive_all-ascending :
    (incoming : List TraceEvent) (existing : Option (List TraceEvent)) (k : ℕ)
    → is_ascending (events_or_none existing) ≡ true
    → (is_ascending (events_or_none (receive_all incoming existing)) ≡ true)
      × (has_sequence k (events_or_none (receive_all incoming existing))
          ≡ has_sequence k (events_or_none existing) || has_sequence k incoming)
unfolding receive_all
receive_all-ascending [] existing k h = ground arith
receive_all-ascending (e ∷ es) existing k h = ground (
  arith,
  merge_events-lem existing e k,
  receive_all-ascending es (some (merge_events existing e)) k,
)
