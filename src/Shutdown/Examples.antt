-- ===== src/Shutdown/Examples.antt =====
-- Runs of the threads of runtime/mod.rs, and the theorems about them at their ends.
use dytor.Context.{ContextId}
use dytor.Shutdown.{all_told, stopped}
use dytor.Shutdown.Told.{Told}
use dytor.Shutdown.Spread.{Reach-Told}
use dytor.Shutdown.Alive.{receiver_alive}
use dytor.Shutdown.Lost.{unsent_lost}
use dytor.Shutdown.Stops.{here, next, rounds_left, stopping_run}
use dytor.Common.{
  ◌<◌, ◌≢◌, ◌+◌, ◌⊎◌, List, [], ◌∷◌, ℕ, ◌≡◌, refl, true, false, inl, arith, returns, panics, update,
}
use dytor.Shutdown.{
  System, Step, move, create, Reach, begin, later, load, sum_below, links, link, constructed,
  into_unowned, recv_dropped, last_dropped, accessor_drops,
}
use dytor.Shutdown.Links.{link_misses}
use dytor.Shutdown.Senders.{IsBlocked, IsPanicking}
use dytor.Shutdown.Safety.{
  IsIdle, stop-IsIdle, no_use_after_free, unhandled_events-eq-load, release_hangs, unowned,
}

record Run (n : ℕ) : Type 0 where
  last : System ℕ
  reach : Reach n last

-- One context and one accessor, which is dropped when the context has started.
one_accessor : Run 1
unfolding sum_below links
one_accessor = record {
  last = _;
  reach =
      later
        (later
          (later
            (later
              (later
                (later (begin (omega arith)) (create 0 0 (omega arith) (omega arith) refl)
                  (omega arith))
                (move 0 (omega arith) (constructed refl)) (omega arith))
              (move 0 (omega arith) (into_unowned refl refl)) (omega arith))
            (move 0 (omega arith) (accessor_drops refl)) (omega arith))
          (move 0 (omega arith) (recv_dropped refl refl)) (omega arith))
        (move 0 (omega arith) (last_dropped refl (omega arith))) (omega arith);
}

stop-IsIdle_example : IsIdle (one_accessor.last.ctxs 0)
unfolding one_accessor
stop-IsIdle_example =
    stop-IsIdle 1 one_accessor.last one_accessor.reach 0 0 (omega arith) (omega arith) refl

unhandled_events-eq-load_example :
    one_accessor.last.block.unhandled_events ≡ load 1 one_accessor.last
unhandled_events-eq-load_example = unhandled_events-eq-load 1 one_accessor.last one_accessor.reach

-- A context without accessors, before it releases its control block.
lone : Run 1
unfolding sum_below
lone = record {
  last = _;
  reach = later (begin (omega arith)) (move 0 (omega arith) (constructed refl)) (omega arith);
}

no_use_after_free_example : lone.last.block.freed ≡ false
unfolding lone
no_use_after_free_example =
    no_use_after_free 1 lone.last lone.reach 0 (omega arith) (inl (into_unowned refl refl, tt))

-- Two contexts without accessors: the first waits, and the second is about to release its count.
one_waits : Run 2
unfolding sum_below
one_waits = record {
  last = _;
  reach =
      later
        (later (later (begin (omega arith)) (move 0 (omega arith) (constructed refl)) (omega arith))
          (move 0 (omega arith) (into_unowned refl refl)) (omega arith))
        (move 1 (omega arith) (constructed refl)) (omega arith);
}

release_hangs_example :
    ((unowned one_waits.last 1).block.freed ≡ true)
    × ((t : System ℕ) → ¬ Step 2 (unowned one_waits.last 1) t)
    × (((1 < 2) × ((k : ℕ) → k < 2 → IsBlocked 2 (unowned one_waits.last 1) k))
        ⊎ (◌≡◌ {A = ℕ} 2 1 × IsPanicking 2 (unowned one_waits.last 1) 0))
unfolding one_waits
release_hangs_example =
    release_hangs 2 one_waits.last 1 one_waits.reach (omega arith) refl refl
      (λ k h ne. let z : k ≡ 0 = omega arith in rw z refl)

-- Of three contexts, the first sends a message for the second to the third.
link_misses_example : link 3 0 1 2 ≡ returns 2
link_misses_example =
    link_misses 3 1 2 (omega arith) (omega arith) (omega arith) (omega arith) (omega arith)

-- With two contexts no message gets across.
two_contexts : (link 2 0 1 2 ≡ panics) × (link 2 1 2 1 ≡ panics)
unfolding link
two_contexts = (refl, refl)

-- The state after the thread of the first context has returned.
abbrev told_all_left : System ℕ → System ℕ
told_all_left s = record s { ctxs = update s.ctxs 0 (record (s.ctxs 0) { pc = stopped }) }

stopping_run_example :
    (1 + rounds_left 1 (told_all_left one_accessor.last) ≡ rounds_left 1 one_accessor.last)
    × (((k : ℕ) → k < 1 → ((told_all_left one_accessor.last).ctxs k).pc ≡ stopped)
        ⊎ ((w : System ℕ) × Step 1 (told_all_left one_accessor.last) w))
unfolding one_accessor links
stopping_run_example =
    stopping_run 1 one_accessor.last (told_all_left one_accessor.last) 1 0 one_accessor.reach
      (omega arith) refl (next here (move 0 (omega arith) (all_told refl)))

Reach-Told_example : Told 1 one_accessor.last
unfolding one_accessor
Reach-Told_example = Reach-Told 1 0 one_accessor.reach (omega arith) refl

abbrev unsorted : List (ContextId × ℕ)
unsorted = (3, 10) ∷ (1, 11) ∷ (3, 12) ∷ (2, 13) ∷ []

-- One accessor of one context, which waits.
held : Run 1
unfolding sum_below
held = record {
  last = _;
  reach =
      later
        (later
          (later (begin (omega arith)) (create 0 0 (omega arith) (omega arith) refl) (omega arith))
          (move 0 (omega arith) (constructed refl)) (omega arith))
        (move 0 (omega arith) (into_unowned refl refl)) (omega arith);
}

receiver_alive_example : (held.last.ctxs 0).pc ≢ stopped
unfolding held
receiver_alive_example =
    receiver_alive 1 held.reach (move 0 (omega arith) (accessor_drops refl)) 0 (tt, refl)

unsent_lost_example :
    (s : System ℕ) × Reach 2 s
    × ((s.ctxs 0).data_of.unsent_messages ≡ (2, 7) ∷ [])
    × ((s.ctxs 0).pc ≡ stopped)
    × ((s.ctxs 1).pc ≡ stopped)
    × ((s.ctxs 1).queue ≡ [])
unsent_lost_example = unsent_lost 7
