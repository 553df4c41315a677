-- ===== src/Shutdown/Ending.antt =====
-- `run_thread` (runtime/mod.rs): which steps of a context end it, free the control block, or touch it.
use dytor.Common.{
  ℕ, suc, ◌≤◌, ◌≡◌, refl, Bool, true, false, ◌||◌, List, [], ◌∷◌, ◌++◌, arith, length-append, All,
  subst,
}
use dytor.Context.{ControlBlock, route}
use dytor.Shutdown.{
  QueueItem, msg, accessor_dropped, stop, Pc, stopping, stopped, Ctx, Move, send_from, run_local,
  run_next, constructed, into_unowned, recv_msg, recv_dropped, recv_stop, none_unsent, many_unsent,
  all_sent, last_dropped, more_left, all_told, accessor_counts, accessor_sends, accessor_drops,
  cell,
}
use dytor.Shutdown.Links.{Linked, links-Linked}

abbrev pub has_stop : {M : Type 0} → List (QueueItem M) → Bool
has_stop [] = false
has_stop (stop ∷ q) = true
has_stop (msg m ∷ q) = has_stop q
has_stop (accessor_dropped ∷ q) = has_stop q

abbrev pub ends : Pc → Bool
ends (stopping js) = true
ends stopped = true
ends _ = false

-- The thread has ended or is about to, or was told to.
abbrev pub over : {M : Type 0} → Ctx M → Bool
over c = ends c.pc || has_stop c.queue

pub has_stop-append :
    {M : Type 0} (q r : List (QueueItem M)) → has_stop (q ++ r) ≡ (has_stop q || has_stop r)
has_stop-append [] r = refl
has_stop-append (stop ∷ q) r = refl
has_stop-append (msg m ∷ q) r = has_stop-append q r
has_stop-append (accessor_dropped ∷ q) r = has_stop-append q r

-- The links that are left to be told are links of the context.
abbrev pub Telling : {M : Type 0} → ℕ → ℕ → Ctx M → Type 0
Telling n i c = (js : List ℕ) → c.pc ≡ stopping js → All (Linked n i) js

module _ {M : Type 0} (n i : ℕ) (b : ControlBlock) (c : Ctx M) where
  -- The step took the last count, and with it an event of the context.
  abbrev pub Last : Ctx M → Type 0
  Last c' = (b.unhandled_events ≤ 1) × (suc (cell c') ≡ cell c)

  pub Move-over :
      {b' : ControlBlock} {c' : Ctx M}
      → Move n i b c b' c'
      → over c' ≡ true
      → over c ≡ false
      → Last c'
  unfolding route
  Move-over (send_from e to m) o u = ground arith
  Move-over (run_local e p) o u = ground arith
  Move-over (run_next e p) o u = ground arith
  Move-over (constructed e) o u = ground arith
  Move-over (into_unowned e p) o u = ground arith
  Move-over (recv_msg e p) o u = ground arith
  Move-over (recv_dropped e p) o u = ground arith
  Move-over (recv_stop e p) o u = ground arith
  Move-over (none_unsent e p q) o u = ground arith
  Move-over (many_unsent e p q) o u = ground arith
  Move-over (all_sent e p) o u = ground arith
  Move-over (last_dropped e p) o u = ground arith
  Move-over (more_left e p) o u = ground arith
  Move-over (all_told e) o u = ground arith
  Move-over (accessor_counts e m) o u = ground arith
  Move-over (accessor_sends before m after e) o u =
      ground (arith, has_stop-append c.queue (msg m ∷ []))
  Move-over (accessor_drops e) o u = ground (arith, has_stop-append c.queue (accessor_dropped ∷ []))

  pub Move-freed :
      {b' : ControlBlock} {c' : Ctx M}
      → Move n i b c b' c'
      → b'.freed ≡ true
      → b.freed ≡ false
      → Last c'
  Move-freed (into_unowned e p) f u = ground arith
  Move-freed (last_dropped e p) f u = ground arith
  Move-freed mv f u = ground arith

  -- A context with no event makes none.
  pub Move-idle : {b' : ControlBlock} {c' : Ctx M} → Move n i b c b' c' → cell c ≡ 0 → cell c' ≡ 0
  unfolding route
  Move-idle (many_unsent e p q) z = ground arith
  Move-idle (all_sent e p) z = ground arith
  Move-idle (recv_stop e p) z = ground arith
  Move-idle (all_told e) z = ground arith
  Move-idle (send_from e to m) z = ground arith
  Move-idle (accessor_sends before m after e) z = ground (arith, length-append before (m ∷ after))
  Move-idle (run_local e p) z = ground arith
  Move-idle (run_next e p) z = ground arith
  Move-idle (constructed e) z = ground arith
  Move-idle (into_unowned e p) z = ground arith
  Move-idle (recv_msg e p) z = ground arith
  Move-idle (recv_dropped e p) z = ground arith
  Move-idle (none_unsent e p q) z = ground arith
  Move-idle (last_dropped e p) z = ground arith
  Move-idle (more_left e p) z = ground arith
  Move-idle (accessor_counts e m) z = ground arith
  Move-idle (accessor_drops e) z = ground arith

  -- The steps that access the control block.
  abbrev pub Touches : {b' : ControlBlock} {c' : Ctx M} → Move n i b c b' c' → Type 0
  Touches (into_unowned _ _) = Unit {0}
  Touches (none_unsent _ _ _) = Unit {0}
  Touches (many_unsent _ _ _) = Unit {0}
  Touches (last_dropped _ _) = Unit {0}
  Touches (more_left _ _) = Unit {0}
  Touches (accessor_counts _ _) = Unit {0}
  Touches _ = ⊥

  pub Touches-cell :
      {b' : ControlBlock} {c' : Ctx M} (mv : Move n i b c b' c') → Touches mv → 1 ≤ cell c
  Touches-cell (into_unowned e p) t = ground arith
  Touches-cell (none_unsent e p q) t = ground arith
  Touches-cell (many_unsent e p q) t = ground arith
  Touches-cell (last_dropped e p) t = ground arith
  Touches-cell (more_left e p) t = ground arith
  Touches-cell (accessor_counts e m) t = ground arith
  Touches-cell mv t = absurd t

  pub Move-Telling :
      {b' : ControlBlock} {c' : Ctx M} → Move n i b c b' c' → Telling n i c → Telling n i c'
  unfolding route
  Move-Telling (send_from e to m) t js p = t js p
  Move-Telling (accessor_sends before m after e) t js p = t js p
  Move-Telling (accessor_drops e) t js p = t js p
  Move-Telling (accessor_counts e m) t js p = t js p
  Move-Telling (run_local e q) t js p = t js p
  Move-Telling (run_next e q) t js p = t js p
  Move-Telling (none_unsent e q r) t js p =
      subst (All (Linked n i)) (ground arith) (links-Linked n i)
  Move-Telling (last_dropped e q) t js p = subst (All (Linked n i)) (cc) (links-Linked n i)
  Move-Telling mv t js p = absurd (cc)
