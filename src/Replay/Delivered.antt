-- ===== src/Replay/Delivered.antt =====
-- The boxes of replay/src/producer.rs: whatever the order in which the threads run, each event that a
-- producer processes is the one that its stream yielded, and no box is read twice or after it was
-- freed, or stays allocated.
use dytor.Common.{
  ℕ, suc, ◌+◌, ◌≤◌, ◌≡◌, ◌⊎◌, inl, inr, List-cases, refl, sym, ◌∙◌, ap, subst, arith, List, [], ◌∷◌,
  ◌++◌, none, returns, times, times_self, times_other, update, update_self, update_other,
}
use dytor.Replay.{Event}
use dytor.Replay.Boxes.{UntypedBox, Boxes, unbox_event, leak_event}
use dytor.Replay.Producer.{
  Replaying, Step, take_next, send_event, process_event, Reach, begin, later,
}
use dytor.Replay.Unboxed.{addresses, unbox_event-Holds, AllHold-unused, times-snoc}
use dytor.Replay.Transit.{IsOwned, entry_list, in_transit, IsWhole, uses, Inv, Becomes-Inv}
use dytor.Replay.Flows.{
  handled, uses-taken, uses-sent_on, uses-handled, IsWhole-taken, IsWhole-sent_on, IsWhole-head,
  IsWhole-at,
}

returns-inj : {A : Type 0} {a b : A} → returns a ≡ returns b → a ≡ b
returns-inj e = cc

module _ {Item : ℕ → Type 0} where
  module _ (item_of : ℕ → ℕ) (streams : (k : ℕ) → List (Event (Item (item_of k)))) where
    Step-Inv :
        (s t : Replaying Item item_of)
        → Inv item_of streams s
        → Step Item item_of s t
        → Inv item_of streams t
    unfolding leak_event
    Step-Inv s t v (take_next k a ev rest left idle free now boxed others) =
        let unused : (j : ℕ) → uses (s.flows j) a ≡ 0 = λ j.
          AllHold-unused s.boxes (item_of j) a free (in_transit (s.flows j)) (v.whole j).0
            (v.whole j).1 in
        let added : (x : ℕ) → uses (t.flows k) x ≡ uses (s.flows k) x + times x (a ∷ []) =
          λ x. ap (λ f. uses f x) now ∙ uses-taken s.boxes (s.flows k) a ev rest x idle in
        let own : times a (a ∷ []) ≡ 1 = times_self a [] in
        let a_use : uses (t.flows k) a ≡ 1 = omega (arith, added a, own, unused k) in
        Becomes-Inv item_of streams s t k a v others
          (λ x ne. ap (λ b. b x) boxed ∙ update_other s.boxes a x _ (λ q. ne (sym q)))
          (λ j _. unused j) (λ x ne. omega (arith, added x, times_other a x [] (λ q. ne (sym q))))
          (omega arith) (inr (omega arith))
          (IsWhole-at (streams k) boxed now
            (IsWhole-taken s.boxes (streams k) (s.flows k) a ev rest left idle free (v.whole k)))
    Step-Inv s t v (send_event k e waits now boxed others) =
        let kept : (x : ℕ) → uses (t.flows k) x ≡ uses (s.flows k) x =
          λ x. ap (λ f. uses f x) now ∙ uses-sent_on (s.flows k) e x waits in
        let f = s.flows k in
        let stands : uses f e.obj
            ≡ times e.obj (addresses (f.sent ++ [])) + times e.obj (e.obj ∷ []) =
          ap (λ o. times e.obj (addresses (f.sent ++ entry_list o))) waits
          ∙ times-snoc e.obj e f.sent in
        let listed : 1 ≤ uses f e.obj = omega (arith, stands, times_self e.obj []) in
        Becomes-Inv item_of streams s t k e.obj v others (λ x _. ap (λ b. b x) boxed)
          (λ j ne. v.apart k j e.obj ne listed) (λ x _. kept x)
          (omega (arith, kept e.obj, v.single k e.obj)) (inr (omega (arith, kept e.obj)))
          (IsWhole-at (streams k) boxed now
            (IsWhole-sent_on s.boxes (streams k) f e waits (v.whole k)))
    Step-Inv s t v (process_event k e rest ev boxes queued unboxed now boxed others) =
        let (u, holds, whole) =
          IsWhole-head s.boxes (streams k) (s.flows k) e rest queued (v.whole k) in
        let f = s.flows k in
        let same : Path (Event (Item (item_of k)) × Boxes Item) (u, update s.boxes e.obj none)
            (ev, boxes) =
          returns-inj (sym (unbox_event-Holds s.boxes (item_of k) e u holds) ∙ unboxed) in
        let kept : (x : ℕ) → uses f x ≡ times x (e.obj ∷ addresses (in_transit (t.flows k))) = λ x.
          uses-handled f e rest ev x queued
          ∙ ap (λ g. times x (e.obj ∷ addresses (in_transit g))) (sym now) in
        let first : uses f e.obj ≡ suc (uses (t.flows k) e.obj) = kept e.obj ∙ times_self e.obj _ in
        let freed : uses (t.flows k) e.obj ≡ 0 = omega (arith, v.single k e.obj) in
        let gone = ap (λ g. times e.obj (addresses (in_transit g))) (sym now) ∙ freed in
        let emptied : (x : ℕ) → t.boxes x ≡ update s.boxes e.obj none x =
          λ x. ap (λ b. b x) boxed ∙ ap (λ p. p.1 x) (sym same) in
        Becomes-Inv item_of streams s t k e.obj v others
          (λ x ne. emptied x ∙ update_other s.boxes e.obj x none (λ q. ne (sym q)))
          (λ j ne. v.apart k j e.obj ne (omega arith))
          (λ x ne. sym (kept x ∙ times_other e.obj x _ (λ q. ne (sym q)))) (omega arith)
          (inl (emptied e.obj ∙ update_self s.boxes e.obj none))
          (IsWhole-at (streams k) boxed now
            (subst (λ p. IsWhole p.1 (streams k) (handled f rest p.0)) same (whole gone)))

    Reach-Inv : {s : Replaying Item item_of} → Reach Item item_of streams s → Inv item_of streams s
    Reach-Inv begin = record {
      whole = λ k. ([], tt, refl);
      single = λ k a. omega arith;
      apart = λ k j a ne h. refl;
      used = λ a. inl refl;
    }
    Reach-Inv (later {s} {t} r st) = Step-Inv s t (Reach-Inv r) st

    -- In every reachable state, the events that a producer has processed are the first ones of its
    -- stream, in their order and unchanged; its boxes hold those that follow, and the rest is still to
    -- come. Unless nothing is sent to it, it unboxes the first event that was sent to it without a
    -- fault. Every box is free or that of an event that is on its way.
    pub process_event-stream :
        {s : Replaying Item item_of} (k : ℕ)
        → Reach Item item_of streams s
        → IsWhole s.boxes (streams k) (s.flows k)
          × (((s.flows k).sent ≡ [])
              ⊎ ((e : Event UntypedBox) × (rest : List (Event UntypedBox)) × (ev : Event
                    (Item (item_of k)))
                  × (boxes : Boxes Item) × ((s.flows k).sent ≡ e ∷ rest)
                  × (unbox_event Item (item_of k) s.boxes e ≡ returns (ev, boxes))))
          × ((a : UntypedBox) → IsOwned item_of streams s a)
    process_event-stream {s} k r =
        let v = Reach-Inv r in
        (
          v.whole k,
          elim (List-cases (s.flows k).sent) [
            | inl idle ↦ inl idle
            | inr (e, rest, queued) ↦
                let (u, holds, _) =
                  IsWhole-head s.boxes (streams k) (s.flows k) e rest queued (v.whole k) in
                inr (
                  e,
                  rest,
                  u,
                  update s.boxes e.obj none,
                  queued,
                  unbox_event-Holds s.boxes (item_of k) e u holds,
                )
          ],
          v.used,
        )
