-- ===== src/Replay/Merge.antt =====
-- The merge of synchronizer.rs sends every event once, and those of a producer in their order.
use mathlib.Core.List.{append-nil, append_assoc}
use dytor.Common.{
  ℕ, zero, suc, ◌+◌, ◌≤◌, ◌<◌, ◌≡◌, refl, sym, ap, arith, List, [], ◌∷◌, ◌++◌, some, ◌==◌,
  if◌then◌else◌, length, Bool-cases, inl, inr, ◌∙◌, subst,
}
use dytor.Replay.{Event, HeapEntry, Heap, push_next, fill, drain, count_events, background_task}

module _ {B : Type 0} where
  -- What was sent to a producer.
  abbrev pub events_of : ℕ → List (ℕ × Event B) → List (Event B)
  events_of p [] = []
  events_of p ((q, ev) ∷ sent) = if q == p then ev ∷ events_of p sent else events_of p sent

  -- The events of the producer's stream.
  abbrev pub stream_of : ℕ → List (ℕ × List (Event B)) → List (Event B)
  stream_of p [] = []
  stream_of p ((q, stream) ∷ producers) =
      if q == p then stream ++ stream_of p producers else stream_of p producers

  abbrev pub times : ℕ → List (ℕ × List (Event B)) → ℕ
  times p [] = 0
  times p ((q, _) ∷ producers) = if q == p then suc (times p producers) else times p producers

  abbrev pending : ℕ → List (HeapEntry B) → List (Event B)
  pending p [] = []
  pending p (e ∷ heap) =
      if e.acc == p then (e.next_event ∷ e.stream) ++ pending p heap else pending p heap

  abbrev entries : ℕ → List (HeapEntry B) → ℕ
  entries p [] = 0
  entries p (e ∷ heap) = if e.acc == p then suc (entries p heap) else entries p heap

  abbrev total : List (HeapEntry B) → ℕ
  total [] = 0
  total (e ∷ heap) = suc (length e.stream) + total heap

  entries-append :
      (p : ℕ) (xs ys : List (HeapEntry B)) → entries p (xs ++ ys) ≡ entries p xs + entries p ys
  entries-append p [] ys = omega arith
  entries-append p (e ∷ xs) ys = ground (arith, entries-append p xs ys)

  total-append : (xs ys : List (HeapEntry B)) → total (xs ++ ys) ≡ total xs + total ys
  total-append [] ys = omega arith
  total-append (e ∷ xs) ys = omega (arith, total-append xs ys)

  pending-append :
      (p : ℕ) (xs ys : List (HeapEntry B)) → pending p (xs ++ ys) ≡ pending p xs ++ pending p ys
  pending-append p [] ys = refl
  pending-append p (e ∷ xs) ys = elim (Bool-cases (e.acc == p)) [
    | inl here ↦
        rw
          (
            here,
            pending-append p xs ys,
            append_assoc (e.next_event ∷ e.stream) (pending p xs) (pending p ys),
          )
          refl
    | inr other ↦ rw (other, pending-append p xs ys) refl
  ]

  pending-nil : (p : ℕ) (heap : List (HeapEntry B)) → entries p heap ≡ 0 → pending p heap ≡ []
  pending-nil p [] z = refl
  pending-nil p (e ∷ heap) z = ground (arith, pending-nil p heap)

  pending-push_next :
      (p q : ℕ) (stream : List (Event B)) (heap : List (HeapEntry B))
      → pending p (push_next q stream heap)
        ≡ (if q == p then stream ++ pending p heap else pending p heap)
  unfolding push_next
  pending-push_next p q [] heap = ground arith
  pending-push_next p q (ev ∷ stream) heap = refl

  entries-push_next :
      (p q : ℕ) (stream : List (Event B)) (heap : List (HeapEntry B))
      → entries p (push_next q stream heap)
        ≤ (if q == p then suc (entries p heap) else entries p heap)
  unfolding push_next
  entries-push_next p q [] heap = ground arith
  entries-push_next p q (ev ∷ stream) heap = ground arith

  total-push_next :
      (q : ℕ) (stream : List (Event B)) (heap : List (HeapEntry B))
      → total (push_next q stream heap) ≡ length stream + total heap
  unfolding push_next
  total-push_next q [] heap = omega arith
  total-push_next q (ev ∷ stream) heap = omega arith

  -- Taking out an entry and pushing its next event keeps what is pending, but for the event taken.
  pending-pop :
      (p : ℕ) (before : List (HeapEntry B)) (e : HeapEntry B) (after : List (HeapEntry B))
      → entries p (before ++ e ∷ after) ≤ 1
      → pending p (before ++ e ∷ after) ≡ (
          if e.acc == p
          then e.next_event ∷ pending p (push_next e.acc e.stream (before ++ after))
          else pending p (push_next e.acc e.stream (before ++ after)))
  pending-pop p before e after once = elim (Bool-cases (e.acc == p)) [
    | inl here ↦
        let n : entries p before + suc (entries p after) ≤ 1 =
          rw here at (rw (entries-append p before (e ∷ after)) at once) in
        let x = pending-nil p before (omega arith) in
        let y = pending-nil p after (omega arith) in
        rw
          (
            pending-push_next p e.acc e.stream (before ++ after),
            here,
            pending-append p before (e ∷ after),
            here,
            pending-append p before after,
            x,
            y,
          )
          refl
    | inr other ↦
        rw
          (
            pending-push_next p e.acc e.stream (before ++ after),
            other,
            pending-append p before (e ∷ after),
            other,
            pending-append p before after,
          )
          refl
  ]

  entries-pop :
      (p : ℕ) (before : List (HeapEntry B)) (e : HeapEntry B) (after : List (HeapEntry B))
      → entries p (before ++ e ∷ after) ≤ 1
      → entries p (push_next e.acc e.stream (before ++ after)) ≤ 1
  entries-pop p before e after once = ground (
    arith,
    entries-push_next p e.acc e.stream (before ++ after),
    entries-append p before (e ∷ after),
    entries-append p before after,
  )

  -- A round of the loop.
  drain-pop :
      (h : Heap B) (fuel : ℕ) (heap rest : List (HeapEntry B)) (e : HeapEntry B)
      (sent : List (ℕ × Event B))
      → h.pop heap ≡ some (e, rest)
      → drain h fuel (push_next e.acc e.stream rest) ≡ some sent
      → drain h (suc fuel) heap ≡ some ((e.acc, e.next_event) ∷ sent)
  unfolding drain
  drain-pop h fuel heap rest e sent p q = rw (drain, p, q) refl

  drain-events :
      (h : Heap B) (fuel : ℕ) (heap : List (HeapEntry B))
      → total heap < fuel
      → ((p : ℕ) → entries p heap ≤ 1)
      → (sent : List (ℕ × Event B)) × (drain h fuel heap ≡ some sent)
        × ((p : ℕ) → events_of p sent ≡ pending p heap)
  unfolding drain
  drain-events h zero heap few once = absurd (omega arith)
  drain-events h (suc fuel) [] few once = ([], rw (drain, h.pop-none) refl, λ p. refl)
  drain-events h (suc fuel) (x ∷ xs) few once =
      let (before, e, after, parts, popped, _) = h.pop-some (x ∷ xs) x xs refl in
      let t : suc (length e.stream) + (total before + total after) ≡ total (x ∷ xs) =
        omega (arith, ap total parts, total-append before (e ∷ after)) in
      let once' : (p : ℕ) → entries p (before ++ e ∷ after) ≤ 1 =
        λ p. subst (λ l. entries p l ≤ 1) parts (once p) in
      let (sent, d, each) =
        drain-events h fuel (push_next e.acc e.stream (before ++ after))
          (omega
            (arith, total-push_next e.acc e.stream (before ++ after), total-append before after))
          (λ p. entries-pop p before e after (once' p)) in
      (
        (e.acc, e.next_event) ∷ sent,
        drain-pop h fuel (x ∷ xs) (before ++ after) e sent popped d,
        λ p. rw (each p) (sym (ap (pending p) parts ∙ pending-pop p before e after (once' p))),
      )

  pending-fill :
      (p : ℕ) (producers : List (ℕ × List (Event B))) (heap : List (HeapEntry B))
      → entries p heap + times p producers ≤ 1
      → (pending p (fill producers heap) ≡ pending p heap ++ stream_of p producers)
        × (entries p (fill producers heap) ≤ 1)
  unfolding fill
  pending-fill p [] heap once = (sym (append-nil (pending p heap)), omega arith)
  pending-fill p ((q, stream) ∷ producers) heap once =
      let (x, y) =
        pending-fill p producers (push_next q stream heap)
          (ground (arith, entries-push_next p q stream heap)) in
      (
        elim (Bool-cases (q == p)) [
          | inl here ↦
              let none_before = pending-nil p heap (ground arith) in
              x ∙ rw (pending-push_next p q stream heap, here, none_before, append-nil stream) refl
          | inr other ↦ x ∙ rw (pending-push_next p q stream heap, other) refl
        ],
        y,
      )

  total-fill :
      (producers : List (ℕ × List (Event B))) (heap : List (HeapEntry B))
      → total (fill producers heap) ≡ total heap + count_events producers
  unfolding fill
  total-fill [] heap = omega arith
  total-fill ((q, stream) ∷ producers) heap =
      omega (arith, total-fill producers (push_next q stream heap), total-push_next q stream heap)

  -- If no two producers share an accessor and all streams end, the merge ends, and every producer is
  -- sent the events of its own stream, each once and in the order of the stream.
  pub background_task-events :
      (h : Heap B) (producers : List (ℕ × List (Event B)))
      → ((p : ℕ) → times p producers ≤ 1)
      → (sent : List (ℕ × Event B)) × (background_task h producers ≡ some sent)
        × ((p : ℕ) → events_of p sent ≡ stream_of p producers)
  unfolding background_task
  background_task-events h producers once =
      let filled = λ (p : ℕ). pending-fill p producers [] (omega (arith, once p)) in
      let (sent, d, each) =
        drain-events h (suc (count_events producers)) (fill producers [])
          (omega (arith, total-fill producers [])) (λ p. (filled p).1) in
      (sent, d, λ p. each p ∙ (filled p).0)
