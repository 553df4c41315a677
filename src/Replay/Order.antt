-- ===== src/Replay/Order.antt =====
-- Which event the merge of synchronizer.rs sends first.
use mathlib.Core.List.Memᴰ
use dytor.Common.{
  ℕ, suc, ◌≤◌, ◌≡◌, ◌↔◌, true, refl, sym, arith, List, [], ◌∷◌, ◌++◌, Memᴰ, Option, some, All-mem,
  subst, inl, inr, Option-cases,
}
use dytor.Replay.{
  Event, HeapEntry, equal, eq, cmp, IsAtMost, Heap, push_next, fill, drain, count_events,
  background_task,
}

module _ {B : Type 0} where
  -- Two entries are equal exactly when neither comes first.
  pub eq-cmp : (a b : HeapEntry B) → (eq a b ≡ true) ↔ (cmp a b ≡ equal)
  unfolding eq cmp
  eq-cmp a b = (λ h. ground arith, λ h. ground arith)

  push_next-keeps :
      (a : HeapEntry B) (q : ℕ) (stream : List (Event B)) (heap : List (HeapEntry B))
      → Memᴰ a heap
      → Memᴰ a (push_next q stream heap)
  unfolding push_next
  push_next-keeps a q [] heap m = m
  push_next-keeps a q (ev ∷ stream) heap m = Memᴰ.tail m

  fill-keeps :
      (a : HeapEntry B) (producers : List (ℕ × List (Event B))) (heap : List (HeapEntry B))
      → Memᴰ a heap
      → Memᴰ a (fill producers heap)
  unfolding fill
  fill-keeps a [] heap m = m
  fill-keeps a ((q, stream) ∷ producers) heap m =
      fill-keeps a producers (push_next q stream heap) (push_next-keeps a q stream heap m)

  fill-mem :
      (q : ℕ) (ev : Event B) (stream : List (Event B)) (producers : List (ℕ × List (Event B)))
      (heap : List (HeapEntry B))
      → Memᴰ (q, ev ∷ stream) producers
      → Memᴰ (record { next_event = ev; acc = q; stream = stream }) (fill producers heap)
  unfolding fill push_next
  fill-mem q ev stream [] heap m = absurd (Memᴰ.not-nil m)
  fill-mem q ev stream (x ∷ producers) heap m = elim (Memᴰ.cases_cons m) [
    | inl e ↦
        subst
          (λ y.
            Memᴰ (record { next_event = ev; acc = q; stream = stream }) (fill (y ∷ producers) heap))
          e (fill-keeps _ producers _ (Memᴰ.head refl))
    | inr later ↦ fill-mem q ev stream producers (push_next x.0 x.1 heap) later
  ]

  IsAtMost-le : (a e : HeapEntry B) → IsAtMost a e → a.next_event.timestamp ≤ e.next_event.timestamp
  unfolding cmp
  IsAtMost-le a e h = ground arith

  drain-first :
      (h : Heap B) (fuel : ℕ) (heap rest : List (HeapEntry B)) (e : HeapEntry B) (p : ℕ)
      (ev : Event B) (sent : List (ℕ × Event B))
      → h.pop heap ≡ some (e, rest)
      → drain h (suc fuel) heap ≡ some ((p, ev) ∷ sent)
      → e.next_event ≡ ev
  unfolding drain
  drain-first h fuel heap rest e p ev sent popped d =
      elim (Option-cases (drain h fuel (push_next e.acc e.stream rest))) [
        | inl nothing ↦ absurd (cc (rw (drain, popped, nothing) at d))
        | inr (later, some_sent) ↦
            let x : ◌≡◌ {A = Option (List (ℕ × Event B))} (some ((e.acc, e.next_event) ∷ later))
                (some ((p, ev) ∷ sent)) =
              rw (drain, popped, some_sent) at d in
            cc
      ]

  drain-greatest :
      (h : Heap B) (fuel : ℕ) (heap : List (HeapEntry B)) (p : ℕ) (ev : Event B)
      (sent : List (ℕ × Event B)) (a : HeapEntry B)
      → drain h (suc fuel) heap ≡ some ((p, ev) ∷ sent)
      → Memᴰ a heap
      → a.next_event.timestamp ≤ ev.timestamp
  drain-greatest h fuel [] p ev sent a d m = absurd (Memᴰ.not-nil m)
  drain-greatest h fuel (x ∷ xs) p ev sent a d m =
      let (before, e, after, parts, popped, greatest) = h.pop-some (x ∷ xs) x xs refl in
      let same = drain-first h fuel (x ∷ xs) (before ++ after) e p ev sent popped d in
      subst (λ y. a.next_event.timestamp ≤ y.timestamp) same
        (IsAtMost-le a e (
          All-mem (λ b. IsAtMost b e) (λ b c same_entry. subst (λ z. IsAtMost z e) (sym same_entry))
            (x ∷ xs) greatest a m))

  -- The first event that the merge sends is not earlier than the first event of any producer: of the
  -- events that wait, the latest is sent.
  pub background_task-latest :
      (h : Heap B) (producers : List (ℕ × List (Event B))) (p q : ℕ) (ev first : Event B)
      (sent : List (ℕ × Event B)) (stream : List (Event B))
      → background_task h producers ≡ some ((p, ev) ∷ sent)
      → Memᴰ (q, first ∷ stream) producers
      → first.timestamp ≤ ev.timestamp
  unfolding background_task
  background_task-latest h producers p q ev first sent stream d m =
      drain-greatest h (count_events producers) (fill producers []) p ev sent
        (record { next_event = first; acc = q; stream = stream }) d
        (fill-mem q first stream producers [] m)
