-- ===== src/Shutdown/Balance.antt =====
-- `run_thread` (runtime/mod.rs): each access of the control block changes its count as the events of
-- the context change.
use dytor.Common.{
  ℕ, suc, ◌+◌, ◌≤◌, ◌<◌, ◌≡◌, refl, List, [], ◌∷◌, ◌++◌, arith, length, length-append, u32_mod,
}
use dytor.Context.{ContextId, ControlBlock, route}
use dytor.Shutdown.{
  QueueItem, msg, accessor_dropped, stop, Ctx, Move, send_from, run_local, run_next, constructed,
  into_unowned, recv_msg, recv_dropped, recv_stop, none_unsent, many_unsent, all_sent, last_dropped,
  more_left, all_told, accessor_counts, accessor_sends, accessor_drops, events, cell, insert_by_key,
  sort_by_key,
}

length-insert_by_key :
    {M : Type 0} (x : ContextId × M) (xs : List (ContextId × M))
    → length (insert_by_key x xs) ≡ suc (length xs)
unfolding insert_by_key
length-insert_by_key x [] = refl
length-insert_by_key x (y ∷ ys) = ground (arith, length-insert_by_key x ys)

pub length-sort_by_key :
    {M : Type 0} (xs : List (ContextId × M)) → length (sort_by_key xs) ≡ length xs
unfolding sort_by_key
length-sort_by_key [] = refl
length-sort_by_key (x ∷ xs) =
    omega (arith, length-insert_by_key x (sort_by_key xs), length-sort_by_key xs)

pub events-append : {M : Type 0} (q r : List (QueueItem M)) → events (q ++ r) ≡ events q + events r
events-append [] r = omega arith
events-append (msg m ∷ q) r = omega (arith, events-append q r)
events-append (accessor_dropped ∷ q) r = omega (arith, events-append q r)
events-append (stop ∷ q) r = events-append q r

module _ {M : Type 0} (n i : ℕ) (b : ControlBlock) (c : Ctx M) where
  -- The count covers the context, and does not overflow in the step.
  pub record Room (c' : Ctx M) : Type 0 where
    pub covers : cell c ≤ b.unhandled_events
    pub small : b.unhandled_events < u32_mod
    pub fits : b.unhandled_events + cell c' < u32_mod + cell c

  abbrev pub Balanced : ControlBlock → Ctx M → Type 0
  Balanced b' c' = b'.unhandled_events + cell c ≡ b.unhandled_events + cell c'

  pub Move-balance :
      {b' : ControlBlock} {c' : Ctx M} → Move n i b c b' c' → Room c' → Balanced b' c'
  unfolding route
  Move-balance (send_from e to m) r = ground arith
  Move-balance (run_local e p) r = ground arith
  Move-balance (run_next e p) r = ground arith
  Move-balance (constructed e) r = ground arith
  Move-balance (into_unowned e p) r = ground arith
  Move-balance (recv_msg e p) r = ground arith
  Move-balance (recv_dropped e p) r = ground arith
  Move-balance (recv_stop e p) r = ground arith
  Move-balance (none_unsent e p q) r = ground arith
  Move-balance (many_unsent e p q) r = ground (arith, length-sort_by_key c.data_of.unsent_messages)
  Move-balance (all_sent e p) r = ground arith
  Move-balance (last_dropped e p) r = ground arith
  Move-balance (more_left e p) r = ground arith
  Move-balance (all_told e) r = ground arith
  Move-balance (accessor_counts e m) r = ground arith
  Move-balance (accessor_sends before m after e) r = ground (
    arith,
    events-append c.queue (msg m ∷ []),
    length-append before (m ∷ after),
    length-append before after,
  )
  Move-balance (accessor_drops e) r = ground (arith, events-append c.queue (accessor_dropped ∷ []))
