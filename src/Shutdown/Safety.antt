-- ===== src/Shutdown/Safety.antt =====
-- When the threads of runtime/mod.rs end, and what they leave.
use dytor.Common.{
  ℕ, ◌≤◌, ◌<◌, ◌≡◌, ◌≢◌, ◌⊎◌, inl, inr, true, false, List, [], ◌∷◌, refl, dec_lt, arith, length,
  length-append, sym, ℕ_discrete, update,
}
use dytor.Context.{ControlBlock, release}
use dytor.Shutdown.{
  QueueItem, msg, accessor_dropped, stop, initialising, first_drain, waiting, Ctx, Move, events,
  own, cell, System, load, Step, move, create, one_unsent, next_unsent, tell, Reach, send_from,
  run_local, run_next, constructed, into_unowned, recv_msg, recv_dropped, recv_stop, none_unsent,
  many_unsent, all_sent, last_dropped, more_left, all_told, accessor_counts, accessor_sends,
  accessor_drops,
}
use dytor.Shutdown.Sums.{update_rule, sum-update, le-sum}
use dytor.Shutdown.Ending.{has_stop, over, Touches, Touches-cell}
use dytor.Shutdown.Invariant.{Inv, cell-le-load, busy-over, busy-freed}
use dytor.Shutdown.Reachable.{Reach-Inv}
use dytor.Shutdown.Senders.{IsBlocked, IsPanicking, waiting-HasSender, lone-HasSender}

-- No message and no `AccessorDropped` is in the queue of the context, no accessor to it is left or is
-- being sent through, and its thread neither constructs, runs nor sends.
pub record IsIdle {M : Type 0} (c : Ctx M) : Type 0 where
  pub no_event : events c.queue ≡ 0
  pub no_accessor : c.accessors ≡ 0
  pub none_in_flight : length c.in_flight ≡ 0
  pub no_work : own c.pc (length c.data_of.unsent_messages) ≡ 0

module _ {M : Type 0} (n : ℕ) (s : System M) (r : Reach n s) where
  -- In every reachable state, if some thread has stopped, is sending `Stop` or has `Stop` in its
  -- queue, then every context is idle.
  pub stop-IsIdle : (i j : ℕ) → i < n → j < n → over (s.ctxs i) ≡ true → IsIdle (s.ctxs j)
  stop-IsIdle i j hi hj o =
      let v = Reach-Inv n r in
      let z : cell (s.ctxs j) ≡ 0 = omega (arith, v.over_quiet i hi o, cell-le-load n s v j hj) in
      omega arith

  -- In every reachable state the control block is not freed yet if some step of a thread or of the
  -- holder of an accessor can access it, also if an actor's construction can.
  pub no_use_after_free :
      (i : ℕ) {b : ControlBlock} {c : Ctx M}
      → i < n
      → (((mv : Move n i s.block (s.ctxs i) b c) × Touches n i s.block (s.ctxs i) mv)
          ⊎ ((s.ctxs i).pc ≡ initialising))
      → s.block.freed ≡ false
  no_use_after_free i hi t =
      busy-freed n s (Reach-Inv n r) i hi
        (elim t [ inl (mv, t) ↦ Touches-cell n i s.block (s.ctxs i) mv t | inr e ↦ ground arith ])

  -- The control block counts exactly the events that are left.
  pub unhandled_events-eq-load : s.block.unhandled_events ≡ load n s
  unhandled_events-eq-load = (Reach-Inv n r).counted

-- A waiting thread with an empty queue, and no accessor to its context.
abbrev IsAsleep : {M : Type 0} → Ctx M → Type 0
IsAsleep c = (c.pc ≡ waiting) × (cell c ≡ 0) × (has_stop c.queue ≡ false)

asleep-Move :
    {M : Type 0} (n i : ℕ) (b : ControlBlock) (c : Ctx M) {b' : ControlBlock} {c' : Ctx M}
    → IsAsleep c
    → ¬ Move n i b c b' c'
asleep-Move n i b c (w, z, u) (send_from e to m) = cc
asleep-Move n i b c (w, z, u) (run_local e p) = cc
asleep-Move n i b c (w, z, u) (run_next e p) = cc
asleep-Move n i b c (w, z, u) (constructed e) = cc
asleep-Move n i b c (w, z, u) (into_unowned e p) = cc
asleep-Move n i b c (w, z, u) (recv_msg e p) = ground arith
asleep-Move n i b c (w, z, u) (recv_dropped e p) = ground arith
asleep-Move n i b c (w, z, u) (recv_stop e p) = ground arith
asleep-Move n i b c (w, z, u) (none_unsent e p q) = cc
asleep-Move n i b c (w, z, u) (many_unsent e p q) = cc
asleep-Move n i b c (w, z, u) (all_sent e p) = cc
asleep-Move n i b c (w, z, u) (last_dropped e p) = cc
asleep-Move n i b c (w, z, u) (more_left e p) = cc
asleep-Move n i b c (w, z, u) (all_told e) = cc
asleep-Move n i b c (w, z, u) (accessor_counts h m) = ground arith
asleep-Move n i b c (w, z, u) (accessor_sends before m after e) =
    ground (arith, length-append before (m ∷ after))
asleep-Move n i b c (w, z, u) (accessor_drops e) = ground arith

asleep-Step :
    {M : Type 0} (n : ℕ) (s : System M) {t : System M}
    → ((k : ℕ) → k < n → IsAsleep (s.ctxs k))
    → ¬ Step n s t
asleep-Step n s all (move i hi mv) = asleep-Move n i s.block (s.ctxs i) (all i hi) mv
asleep-Step n s all (create i j hi hj e) = ground (arith, all i hi)
asleep-Step n s all (one_unsent i j rx m hi e l u k) = ground (arith, all i hi)
asleep-Step n s all (next_unsent i j rx m rest hi e u k) = ground (arith, all i hi)
asleep-Step n s all (tell i j js hi e) = ground (arith, all i hi)

-- The state after `into_unowned` of the thread of context `i`.
abbrev pub unowned : {M : Type 0} → System M → ℕ → System M
unowned s i = record {
  block = release s.block;
  ctxs = update s.ctxs i (record (s.ctxs i) { pc = waiting });
}

IsAsleep-queue : {M : Type 0} (q : List (QueueItem M)) → events q ≡ 0 → has_stop q ≡ false → q ≡ []
IsAsleep-queue [] e f = refl
IsAsleep-queue (msg m ∷ q) e f = absurd (omega arith)
IsAsleep-queue (accessor_dropped ∷ q) e f = absurd (omega arith)
IsAsleep-queue (stop ∷ q) e f = absurd (cc)

-- If the last of the threads to release its control block takes the last count, since no accessor
-- is left, then the block is freed, no thread is told to stop, and no step is possible. If there are
-- several contexts, every thread waits in `recv`; the thread of a single context panics there, since
-- its queue has no sender.
pub release_hangs :
    {M : Type 0} (n : ℕ) (s : System M) (i : ℕ)
    → Reach n s
    → i < n
    → (s.ctxs i).pc ≡ first_drain
    → s.block.unhandled_events ≡ 1
    → ((k : ℕ) → k < n → k ≢ i → (s.ctxs k).pc ≡ waiting)
    → ((unowned s i).block.freed ≡ true)
      × ((t : System M) → ¬ Step n (unowned s i) t)
      × (((1 < n) × ((k : ℕ) → k < n → IsBlocked n (unowned s i) k))
          ⊎ ((n ≡ 1) × IsPanicking n (unowned s i) 0))
release_hangs {M} n s i r hi e one rest = (
  ground arith,
  λ t. asleep-Step n (unowned s i) asleep,
  elim (dec_lt 1 n) [
    | yes more ↦ inl (
      more,
      λ k hk. record {
        at_recv = (asleep k hk).0;
        no_item = empty k hk;
        sender = waiting-HasSender n (unowned s i) (λ j hj. (asleep j hj).0) k more hk;
      },
    )
    | no single ↦
        let first : 0 < n = omega arith in
        inr (
          omega arith,
          record {
            at_recv = (asleep 0 first).0;
            no_item = empty 0 first;
            no_sender =
                lone-HasSender n (unowned s i) (λ j hj. (asleep j hj).0) (omega arith)
                  (omega (arith, (asleep 0 first).1)) (omega (arith, (asleep 0 first).1));
          },
        )
  ],
)
  where
    v : Inv n s
    v = Reach-Inv n r

    busy : 1 ≤ cell (s.ctxs i)
    busy = ground arith

    left : load n (unowned s i) ≡ 0
    left =
        let d : Ctx M = record (s.ctxs i) { pc = waiting } in
        ground (arith, sum-update cell n s.ctxs i d hi, v.counted, cell-le-load n s v i hi)

    asleep : (k : ℕ) → k < n → IsAsleep (update s.ctxs i (record (s.ctxs i) { pc = waiting }) k)
    asleep k hk = (
      elim (ℕ_discrete i k) [
        | yes same ↦ ground arith
        | no other ↦ ground (arith, rest k hk (λ q. other (sym q)))
      ],
      omega (arith, left, le-sum cell n (unowned s i).ctxs k hk),
      update_rule (λ _ c. has_stop c.queue ≡ false) s.ctxs i k (record (s.ctxs i) { pc = waiting })
          (ground (arith, busy-over n s v i i hi hi busy))
          (ground (arith, busy-over n s v i k hi hk busy)),
    )

    empty : (k : ℕ) → k < n → ((unowned s i).ctxs k).queue ≡ []
    empty k hk =
        IsAsleep-queue ((unowned s i).ctxs k).queue (omega (arith, (asleep k hk).1)) (asleep k hk).2
