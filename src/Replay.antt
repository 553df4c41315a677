-- ===== src/Replay.antt =====
-- crates/examples/replay/src/synchronizer.rs: the merge of the producers' streams of events. An
-- accessor is named by a number, a stream is the events that it yields, and what is sent is
-- recorded in order.
pub mod Sources
pub mod Boxes
pub mod EventLoop
pub mod Producer
pub mod Unboxed
pub mod Transit
pub mod Flows
pub mod Delivered
pub mod Deliveries
pub mod Merge
pub mod Order
pub mod Examples
use dytor.Common.{
  ℕ, zero, suc, ◌+◌, ◌≡◌, Bool, true, false, List, [], ◌∷◌, ◌++◌, Option, none, some, ltb, leb,
  ◌==◌, ◌&&◌, if◌then◌else◌, All, length,
}

-- `Event`, over the type of its object.
pub record Event (B : Type 0) : Type 0 where
  pub timestamp : ℕ
  pub tie_break : ℕ
  pub obj : B

pub record HeapEntry (B : Type 0) : Type 0 where
  pub next_event : Event B
  pub acc : ℕ
  pub stream : List (Event B)

pub data Ordering : Type 0 where
  less equal greater : Ordering

abbrev pub cmp_nat : ℕ → ℕ → Ordering
cmp_nat a b = if ltb a b then less else if a == b then equal else greater

-- `HeapEntry::cmp`
unfoldable pub cmp : {B : Type 0} → HeapEntry B → HeapEntry B → Ordering
cmp a b = elim (cmp_nat a.next_event.timestamp b.next_event.timestamp) [
  | less ↦ less
  | greater ↦ greater
  | equal ↦ cmp_nat a.next_event.tie_break b.next_event.tie_break
]

-- `HeapEntry::eq`
unfoldable pub eq : {B : Type 0} → HeapEntry B → HeapEntry B → Bool
eq a b =
    a.next_event.timestamp == b.next_event.timestamp
    && a.next_event.tie_break == b.next_event.tie_break

-- `a <= b`
abbrev pub IsAtMost : {B : Type 0} → HeapEntry B → HeapEntry B → Type 0
IsAtMost a b = ¬ (cmp a b ≡ greater)

-- `BinaryHeap::pop`, on the entries that were pushed: it fails on the empty heap only, and takes
-- out one of the greatest.
pub record Heap (B : Type 0) : Type 0 where
  pub pop : List (HeapEntry B) → Option (HeapEntry B × List (HeapEntry B))
  pub pop-none : pop [] ≡ none
  pub pop-some :
      (heap : List (HeapEntry B)) (x : HeapEntry B) (xs : List (HeapEntry B))
      → heap ≡ x ∷ xs
      → (before : List (HeapEntry B)) × (e : HeapEntry B) × (after : List (HeapEntry B)) × (heap
          ≡ before ++ e ∷ after)
        × (pop heap ≡ some (e, before ++ after))
        × All (λ a. IsAtMost a e) heap

-- `if let Some(ev) = ev { heap.push(…) }`, after `stream.next().await`.
unfoldable pub push_next :
    {B : Type 0} → ℕ → List (Event B) → List (HeapEntry B) → List (HeapEntry B)
push_next acc [] heap = heap
push_next acc (ev ∷ stream) heap = record { next_event = ev; acc = acc; stream = stream } ∷ heap

-- The loop that fills the heap, over the streams that the producers returned.
unfoldable pub fill :
    {B : Type 0} → List (ℕ × List (Event B)) → List (HeapEntry B) → List (HeapEntry B)
unfolding push_next
fill [] heap = heap
fill ((acc, stream) ∷ producers) heap = fill producers (push_next acc stream heap)

abbrev pub count_events : {B : Type 0} → List (ℕ × List (Event B)) → ℕ
count_events [] = 0
count_events ((_, stream) ∷ producers) = length stream + count_events producers

module _ {B : Type 0} (h : Heap B) where
  -- The last loop; each round sends an event to its producer. The result is `none` without fuel.
  unfoldable pub drain : ℕ → List (HeapEntry B) → Option (List (ℕ × Event B))
  unfolding push_next
  drain zero heap = none
  drain (suc fuel) heap = elim (h.pop heap) [
    | none ↦ some []
    | some (entry, rest) ↦
        let later = drain fuel (push_next entry.acc entry.stream rest) in
        elim later [ none ↦ none | some sent ↦ some ((entry.acc, entry.next_event) ∷ sent) ]
  ]

  -- Both loops of `background_task`.
  unfoldable pub background_task : List (ℕ × List (Event B)) → Option (List (ℕ × Event B))
  unfolding fill drain
  background_task producers = drain (suc (count_events producers)) (fill producers [])
