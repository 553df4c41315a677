-- ===== src/Shutdown/Told.antt =====
-- `run_thread` (runtime/mod.rs): who is told to stop. One thread takes the last count and tells the
-- others, each of which has its `Stop` still to come, in its queue, or behind it.
use dytor.Common.{
  ℕ, zero, suc, ◌+◌, ◌<◌, ◌≤◌, ◌≡◌, ◌≢◌, refl, arith, Bool, true, false, List, [], ◌∷◌, ◌++◌, ◌⊎◌,
  length-append, times,
}
use dytor.Context.{ControlBlock, route}
use dytor.Shutdown.{
  QueueItem, msg, accessor_dropped, stop, Pc, waiting, sending, stopping, stopped, Ctx, Move,
  send_from, run_local, run_next, constructed, into_unowned, recv_msg, recv_dropped, recv_stop,
  none_unsent, many_unsent, all_sent, last_dropped, more_left, all_told, accessor_counts,
  accessor_sends, accessor_drops, cell, links, links_from, System,
}
use dytor.Shutdown.Ending.{has_stop, over, has_stop-append}

abbrev pub count_stops : {M : Type 0} → List (QueueItem M) → ℕ
count_stops [] = 0
count_stops (stop ∷ q) = suc (count_stops q)
count_stops (msg m ∷ q) = count_stops q
count_stops (accessor_dropped ∷ q) = count_stops q

abbrev pub is_telling : Pc → Bool
is_telling (stopping js) = true
is_telling _ = false

abbrev pub ended : Pc → ℕ
ended stopped = 1
ended _ = 0

-- The `Stop`s that a context was sent.
abbrev pub told : {M : Type 0} → Ctx M → ℕ
told c = count_stops c.queue + ended c.pc

-- One thread is telling the others, or has told them: all but that one have one `Stop` each.
pub record Told {M : Type 0} (n : ℕ) (s : System M) : Type 0 where
  pub teller : ℕ
  pub below : teller < n
  pub left : List ℕ
  pub tells : ((s.ctxs teller).pc ≡ stopping left) ⊎ (((s.ctxs teller).pc ≡ stopped) × (left ≡ []))
  pub untold : count_stops (s.ctxs teller).queue ≡ 0
  pub others :
      (k : ℕ)
      → k < n
      → k ≢ teller
      → (is_telling (s.ctxs k).pc ≡ false) × (told (s.ctxs k) + times k left ≡ 1)

pub count_stops-append :
    {M : Type 0} (q r : List (QueueItem M)) → count_stops (q ++ r) ≡ count_stops q + count_stops r
count_stops-append [] r = omega arith
count_stops-append (msg m ∷ q) r = count_stops-append q r
count_stops-append (accessor_dropped ∷ q) r = count_stops-append q r
count_stops-append (stop ∷ q) r = omega (arith, count_stops-append q r)

pub count_stops-zero :
    {M : Type 0} (q : List (QueueItem M)) → has_stop q ≡ false → count_stops q ≡ 0
count_stops-zero [] h = refl
count_stops-zero (msg m ∷ q) h = count_stops-zero q h
count_stops-zero (accessor_dropped ∷ q) h = count_stops-zero q h
count_stops-zero (stop ∷ q) h = absurd (cc)

times-links_from_below : (c j i k : ℕ) → k < j → times k (links_from c j i) ≡ 0
unfolding links_from
times-links_from_below zero j i k h = refl
times-links_from_below (suc c) j i k h = ground (arith, times-links_from_below c (suc j) i k)

times-links_from : (c j i k : ℕ) → i ≢ k → j ≤ k → k < j + c → times k (links_from c j i) ≡ 1
unfolding links_from
times-links_from zero j i k ne h lt = absurd (omega arith)
times-links_from (suc c) j i k ne h lt =
    ground (arith, times-links_from_below c (suc j) i k, times-links_from c (suc j) i k)

-- The links of a context lead to each other context once.
pub times-links : (n i k : ℕ) → i ≢ k → k < n → times k (links n i) ≡ 1
unfolding links
times-links n i k ne h = times-links_from n 0 i k ne (omega arith) (omega arith)

-- What a thread can do when no event is left.
pub data Quiet {M : Type 0} (c c' : Ctx M) : Type 0 where
  receives : c.pc ≡ waiting → c.queue ≡ stop ∷ c'.queue → c'.pc ≡ stopped → Quiet c c'
  sent_all : c.pc ≡ sending → c'.pc ≡ waiting → c'.queue ≡ c.queue → Quiet c c'
  told_all : c.pc ≡ stopping [] → c'.pc ≡ stopped → c'.queue ≡ c.queue → Quiet c c'

module _ {M : Type 0} (n i : ℕ) (b : ControlBlock) (c : Ctx M) where
  -- The thread that takes the last count.
  pub Move-starts :
      {b' : ControlBlock} {c' : Ctx M}
      → Move n i b c b' c'
      → over c ≡ false
      → over c' ≡ true
      → (c'.pc ≡ stopping (links n i)) × (has_stop c'.queue ≡ false)
  unfolding route
  Move-starts (send_from e to m) u o = ground arith
  Move-starts (run_local e p) u o = ground arith
  Move-starts (run_next e p) u o = ground arith
  Move-starts (constructed e) u o = ground arith
  Move-starts (into_unowned e p) u o = ground arith
  Move-starts (recv_msg e p) u o = ground arith
  Move-starts (recv_dropped e p) u o = ground arith
  Move-starts (recv_stop e p) u o = ground arith
  Move-starts (none_unsent e p q) u o = ground arith
  Move-starts (many_unsent e p q) u o = ground arith
  Move-starts (all_sent e p) u o = ground arith
  Move-starts (last_dropped e p) u o = ground arith
  Move-starts (more_left e p) u o = ground arith
  Move-starts (all_told e) u o = ground arith
  Move-starts (accessor_counts e m) u o = ground arith
  Move-starts (accessor_sends before m after e) u o =
      ground (arith, has_stop-append c.queue (msg m ∷ []))
  Move-starts (accessor_drops e) u o =
      ground (arith, has_stop-append c.queue (accessor_dropped ∷ []))

  pub Move-Quiet : {b' : ControlBlock} {c' : Ctx M} → Move n i b c b' c' → cell c ≡ 0 → Quiet c c'
  Move-Quiet (send_from e to m) z = absurd (ground arith)
  Move-Quiet (run_local e p) z = absurd (ground arith)
  Move-Quiet (run_next e p) z = absurd (ground arith)
  Move-Quiet (constructed e) z = absurd (ground arith)
  Move-Quiet (into_unowned e p) z = absurd (ground arith)
  Move-Quiet (recv_msg e p) z = absurd (ground arith)
  Move-Quiet (recv_dropped e p) z = absurd (ground arith)
  Move-Quiet (recv_stop e p) z = receives e p refl
  Move-Quiet (none_unsent e p q) z = absurd (ground arith)
  Move-Quiet (many_unsent e p q) z = absurd (ground arith)
  Move-Quiet (all_sent e p) z = sent_all e refl refl
  Move-Quiet (last_dropped e p) z = absurd (ground arith)
  Move-Quiet (more_left e p) z = absurd (ground arith)
  Move-Quiet (all_told e) z = told_all e refl refl
  Move-Quiet (accessor_counts e m) z = absurd (ground arith)
  Move-Quiet (accessor_sends before m after e) z =
      absurd (ground (arith, length-append before (m ∷ after)))
  Move-Quiet (accessor_drops e) z = absurd (ground arith)
