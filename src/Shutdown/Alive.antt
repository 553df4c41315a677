-- ===== src/Shutdown/Alive.antt =====
-- `run_thread` and the accessors (runtime/mod.rs, context.rs): no `send` of theirs fails for want of a
-- receiver, so that no `unwrap` of its result panics.
use dytor.Common.{
  ℕ, ◌+◌, ◌<◌, ◌≤◌, ◌≡◌, ◌≢◌, sym, ◌∙◌, subst, arith, false, List, ◌∷◌, length-append, times,
}
use dytor.Context.{ControlBlock}
use dytor.Shutdown.{
  stopped, stopping, Ctx, Move, accessor_sends, accessor_drops, System, Step, move, create,
  one_unsent, next_unsent, tell, Reach, cell,
}
use dytor.Shutdown.Ending.{over}
use dytor.Shutdown.Links.{link-Linked}
use dytor.Shutdown.Invariant.{busy-over}
use dytor.Shutdown.Reachable.{Reach-Inv}
use dytor.Shutdown.Told.{told}
use dytor.Shutdown.Spread.{Reach-Told}
use dytor.Shutdown.Telling.{telling-teller, left-is}

-- The step puts an item into the queue of context `j`.
abbrev pub QueuesAt :
    {M : Type 0} {n i : ℕ} {b : ControlBlock} {c : Ctx M} {b' : ControlBlock} {c' : Ctx M}
    → Move n i b c b' c'
    → Type 0
QueuesAt (accessor_sends _ _ _ _) = Unit {0}
QueuesAt (accessor_drops _) = Unit {0}
QueuesAt _ = ⊥

abbrev pub Queues : {M : Type 0} {n : ℕ} {s t : System M} → Step n s t → ℕ → Type 0
Queues (move i hi mv) j = QueuesAt mv × (j ≡ i)
Queues (create _ _ _ _ _) j = ⊥
Queues (one_unsent i k rx m _ _ _ _ _) j = j ≡ k
Queues (next_unsent i k rx m rest _ _ _ _) j = j ≡ k
Queues (tell i k js _ _) j = j ≡ k

QueuesAt-cell :
    {M : Type 0} (n i : ℕ) (b : ControlBlock) (c : Ctx M) {b' : ControlBlock} {c' : Ctx M}
    (mv : Move n i b c b' c')
    → QueuesAt mv
    → 1 ≤ cell c
QueuesAt-cell n i b c (accessor_sends before m after e) q =
    ground (arith, length-append before (m ∷ after))
QueuesAt-cell n i b c (accessor_drops e) q = ground arith
QueuesAt-cell n i b c mv q = absurd q

running_on : {M : Type 0} (c : Ctx M) → over c ≡ false → c.pc ≢ stopped
running_on c u e = ground arith

not_both :
    {M : Type 0} (c : Ctx M) (j : ℕ) (js : List ℕ) → told c + times j (j ∷ js) ≡ 1 → c.pc ≢ stopped
not_both c j js sum e = ground arith

module _ {M : Type 0} (n : ℕ) {s : System M} (r : Reach n s) where
  untold-tell :
      (i j : ℕ) (js : List ℕ) → i < n → (s.ctxs i).pc ≡ stopping (j ∷ js) → (s.ctxs j).pc ≢ stopped
  untold-tell i j js hi e =
      let v = Reach-Inv n r in
      let t = Reach-Told n i r hi (ground arith) in
      let (hj, ne) = (v.telling i hi (j ∷ js) e).0 in
      let itself = telling-teller n s v t i hi (ground arith) in
      let (_, sum) = t.others j hj (λ q. ne (itself ∙ sym q)) in
      let listed = left-is n s v t i j js hi e in λ q. not_both (s.ctxs j) j js (rw listed at sum) q

  -- In every reachable state, the thread of the context into whose queue a step puts an item has not
  -- returned, so that the queue still has its receiver.
  pub receiver_alive :
      {t : System M} (st : Step n s t) (j : ℕ) → Queues st j → (s.ctxs j).pc ≢ stopped
  receiver_alive (move i hi mv) j (q, e) =
      let busy = QueuesAt-cell n i s.block (s.ctxs i) mv q in
      subst (λ k. (s.ctxs k).pc ≢ stopped) (sym e)
        (running_on (s.ctxs i) (busy-over n s (Reach-Inv n r) i i hi hi busy))
  receiver_alive (create i k hi hk p) j q = absurd q
  receiver_alive (one_unsent i k rx m hi p l u f) j e =
      subst (λ x. (s.ctxs x).pc ≢ stopped) (sym e)
        (running_on (s.ctxs k)
          (busy-over n s (Reach-Inv n r) i k hi (link-Linked n i _ rx k f).0 (ground arith)))
  receiver_alive (next_unsent i k rx m rest hi p u f) j e =
      subst (λ x. (s.ctxs x).pc ≢ stopped) (sym e)
        (running_on (s.ctxs k)
          (busy-over n s (Reach-Inv n r) i k hi (link-Linked n i _ rx k f).0 (ground arith)))
  receiver_alive (tell i k js hi p) j e =
      subst (λ x. (s.ctxs x).pc ≢ stopped) (sym e) (untold-tell i k js hi p)
