-- ===== src/Shutdown/Lost.antt =====
-- A message to another context that is sent during construction (runtime/mod.rs).
use dytor.Common.{
  ℕ, suc, ◌+◌, ◌<◌, ◌≡◌, refl, subst, arith, true, false, List, [], ◌∷◌, u32_mod, ◌==◌,
  if◌then◌else◌, update,
}
use dytor.Context.{ContextId, ControlBlock, route}
use dytor.Shutdown.{
  QueueItem, Pc, stopping, stopped, initialising, first_drain, waiting, dropped, stop,
  accessor_dropped, Ctx, cell, System, Move, move, create, tell, Reach, begin, later, start, fresh,
  sum_below, links, send_from, constructed, into_unowned, recv_dropped, recv_stop, last_dropped,
  all_told, accessor_drops,
}

-- The control block, with so many events.
abbrev counting : ℕ → ControlBlock
counting k = record { unhandled_events = k; freed = false }

-- The control block after the last event.
abbrev spent : ControlBlock
spent = record { unhandled_events = 0; freed = true }

module _ {M : Type 0} where
  -- Two contexts, and the control block.
  abbrev two : ControlBlock → Ctx M → Ctx M → System M
  two b c0 c1 = record {
    block = b;
    ctxs = λ j. if 0 == j then c0 else if 1 == j then c1 else fresh j;
  }

  same_ctxs :
      (b : ControlBlock) (f : ℕ → Ctx M) (c0 c1 : Ctx M)
      → ((j : ℕ) → f j ≡ (two b c0 c1).ctxs j)
      → Reach 2 (record { block = b; ctxs = f })
      → Reach 2 (two b c0 c1)
  same_ctxs b f c0 c1 e r = subst (λ g. Reach 2 (record { block = b; ctxs = g })) (λ k j. e j k) r

  first_moves :
      (b b' : ControlBlock) (c0 c0' c1 : Ctx M)
      → Reach 2 (two b c0 c1)
      → Move 2 0 b c0 b' c0'
      → cell c0' + cell c1 < u32_mod
      → Reach 2 (two b' c0' c1)
  unfolding sum_below
  first_moves b b' c0 c0' c1 r mv room =
      same_ctxs b' (update (two b c0 c1).ctxs 0 c0') c0' c1 (λ j. ground arith)
        (later r (move 0 (omega arith) mv) (omega (arith, room)))

  second_moves :
      (b b' : ControlBlock) (c0 c1 c1' : Ctx M)
      → Reach 2 (two b c0 c1)
      → Move 2 1 b c1 b' c1'
      → cell c0 + cell c1' < u32_mod
      → Reach 2 (two b' c0 c1')
  unfolding sum_below
  second_moves b b' c0 c1 c1' r mv room =
      same_ctxs b' (update (two b c0 c1).ctxs 1 c1') c0 c1' (λ j. ground arith)
        (later r (move 1 (omega arith) mv) (omega (arith, room)))

  begins : Reach 2 (two (start {M = M} 2).block (fresh 0) (fresh 1))
  begins =
      same_ctxs (start {M = M} 2).block fresh (fresh 0) (fresh 1) (λ j. ground arith)
        (begin (omega arith))

  -- A context at a point of `run_thread`.
  abbrev at : Pc → ℕ → ℕ → List (ContextId × M) → List (QueueItem M) → Ctx M
  at pc i accessors unsent queue = record {
    pc = pc;
    data_of = record { id = suc i; local_queue = []; unsent_messages = unsent };
    queue = queue;
    accessors = accessors;
    in_flight = [];
  }

  module _ (m : M) where
    abbrev unsent : List (ContextId × M)
    unsent = (2, m) ∷ []

    with_accessor :
        Reach 2 (two (counting 3) (at initialising 0 1 [] []) (at initialising 1 0 [] []))
    unfolding sum_below
    with_accessor =
        same_ctxs (counting 3) (update fresh 0 (at initialising 0 1 [] []))
          (at initialising 0 1 [] []) (at initialising 1 0 [] []) (λ j. ground arith)
          (later (begin (omega arith)) (create 0 0 (omega arith) (omega arith) refl) (omega arith))

    -- Both threads have started.
    both_wait : Reach 2 (two (counting 1) (at waiting 0 1 unsent []) (at waiting 1 0 [] []))
    unfolding route
    both_wait =
        second_moves (counting 2) (counting 1) (at waiting 0 1 unsent []) (at first_drain 1 0 [] [])
          (at waiting 1 0 [] [])
          (second_moves (counting 2) (counting 2) (at waiting 0 1 unsent [])
            (at initialising 1 0 [] []) (at first_drain 1 0 [] [])
            (first_moves (counting 3) (counting 2) (at first_drain 0 1 unsent [])
              (at waiting 0 1 unsent []) (at initialising 1 0 [] [])
              (first_moves (counting 3) (counting 3) (at initialising 0 1 unsent [])
                (at first_drain 0 1 unsent []) (at initialising 1 0 [] [])
                (first_moves (counting 3) (counting 3) (at initialising 0 1 [] [])
                  (at initialising 0 1 unsent []) (at initialising 1 0 [] []) with_accessor
                  (send_from refl 2 m) (omega arith))
                (constructed refl) (omega arith))
              (into_unowned refl refl) (omega arith))
            (constructed refl) (omega arith))
          (into_unowned refl refl) (omega arith)

    told : Reach 2 (two spent (at (stopping []) 0 0 unsent []) (at waiting 1 0 [] (stop ∷ [])))
    unfolding links sum_below
    told =
        same_ctxs spent
          (update
            (update (two spent (at (stopping (1 ∷ [])) 0 0 unsent []) (at waiting 1 0 [] [])).ctxs 0
              (at (stopping []) 0 0 unsent []))
            1 (at waiting 1 0 [] (stop ∷ [])))
          (at (stopping []) 0 0 unsent []) (at waiting 1 0 [] (stop ∷ [])) (λ j. ground arith)
          (later
            (first_moves (counting 1) spent (at dropped 0 0 unsent [])
              (at (stopping (1 ∷ [])) 0 0 unsent []) (at waiting 1 0 [] [])
              (first_moves (counting 1) (counting 1) (at waiting 0 0 unsent (accessor_dropped ∷ []))
                (at dropped 0 0 unsent []) (at waiting 1 0 [] [])
                (first_moves (counting 1) (counting 1) (at waiting 0 1 unsent [])
                  (at waiting 0 0 unsent (accessor_dropped ∷ [])) (at waiting 1 0 [] []) both_wait
                  (accessor_drops refl) (omega arith))
                (recv_dropped refl refl) (omega arith))
              (last_dropped refl (omega arith)) (omega arith))
            (tell 0 1 [] (omega arith) refl) (omega arith))

  -- Whatever the message is: of two contexts, the first can send it to the second while its actors
  -- are constructed, and both threads can be told to stop and return while it still waits among the
  -- unsent messages of the first, with nothing in the queue of the second.
  pub unsent_lost :
      (m : M)
      → (s : System M) × Reach 2 s
        × ((s.ctxs 0).data_of.unsent_messages ≡ (2, m) ∷ [])
        × ((s.ctxs 0).pc ≡ stopped)
        × ((s.ctxs 1).pc ≡ stopped)
        × ((s.ctxs 1).queue ≡ [])
  unsent_lost m = (
    two spent (at stopped 0 0 (unsent m) []) (at stopped 1 0 [] []),
    second_moves spent spent (at stopped 0 0 (unsent m) []) (at waiting 1 0 [] (stop ∷ []))
        (at stopped 1 0 [] [])
        (first_moves spent spent (at (stopping []) 0 0 (unsent m) []) (at stopped 0 0 (unsent m) [])
          (at waiting 1 0 [] (stop ∷ [])) (told m) (all_told refl) (omega arith))
        (recv_stop refl refl) (omega arith),
    refl,
    refl,
    refl,
    refl,
  )
