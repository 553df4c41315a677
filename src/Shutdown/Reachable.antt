-- ===== src/Shutdown/Reachable.antt =====
-- The invariant of the threads of runtime/mod.rs holds in every state that is reached.
use dytor.Common.{
  ℕ, zero, suc, ◌≤◌, ◌<◌, ◌≡◌, refl, List, [], ◌∷◌, arith, u32_mod, All, subst, sym, update,
}
use dytor.Shutdown.{
  msg, stop, stopping, Ctx, cell, sum_below, receive, System, load, Step, move, create, one_unsent,
  next_unsent, tell, Reach, begin, later, start, fresh,
}
use dytor.Shutdown.Links.{Linked, link-Linked}
use dytor.Shutdown.Balance.{events-append}
use dytor.Shutdown.Ending.{has_stop-append, over, Telling}
use dytor.Shutdown.Invariant.{Inv, busy-over, passed-Inv, create-Inv, move-Inv}

load-start : (M : Type 0) (k : ℕ) → sum_below cell k (fresh {M = M}) ≡ k
unfolding sum_below
load-start M zero = refl
load-start M (suc k) = omega (arith, load-start M k)

module _ {M : Type 0} (n : ℕ) where
  start-Inv : n < u32_mod → Inv n (start {M = M} n)
  start-Inv h = record {
    counted = sym (load-start M n);
    small = omega (arith, load-start M n);
    over_quiet = λ i hi o. absurd (cc);
    freed_quiet = λ f. absurd (cc);
    telling = λ i hi js p. absurd (cc);
  }

  module _ {s : System M} (v : Inv n s) where
    send-Inv :
        (i j : ℕ) (m : M) (a : Ctx M)
        → i < n
        → Linked n i j
        → 1 ≤ cell (s.ctxs i)
        → suc (cell a) ≡ cell (s.ctxs i)
        → over a ≡ over (s.ctxs i)
        → Telling n i a
        → Inv n (record s { ctxs = update (update s.ctxs i a) j (receive (s.ctxs j) (msg m)) })
    send-Inv i j m a hi (hj, ne) busy taken same t =
        passed-Inv n s v i j hi hj ne a (receive (s.ctxs j) (msg m))
          (omega (arith, events-append (s.ctxs j).queue (msg m ∷ [])))
          (ground (arith, busy-over n s v i i hi hi busy))
          (ground
            (arith, busy-over n s v i j hi hj busy, has_stop-append (s.ctxs j).queue (msg m ∷ [])))
          t (v.telling j hj)

    tell-Inv :
        (i j : ℕ) (js : List ℕ)
        → i < n
        → (s.ctxs i).pc ≡ stopping (j ∷ js)
        → Inv n (record s {
          ctxs =
              update
                (update s.ctxs i (record (s.ctxs i) { pc = stopping js }))
                j
                (receive (s.ctxs j) stop);
        })
    tell-Inv i j js hi e =
        let all = v.telling i hi (j ∷ js) e in
        let quiet = v.over_quiet i hi (ground arith) in
        passed-Inv n s v i j hi all.0.0 all.0.1 (record (s.ctxs i) { pc = stopping js })
          (receive (s.ctxs j) stop) (ground (arith, events-append (s.ctxs j).queue (stop ∷ [])))
          (λ _. quiet) (λ _. quiet) (λ ks p. subst (All (Linked n i)) (cc) all.1)
          (v.telling j all.0.0)

  pub Step-Inv : {s t : System M} → Step n s t → Inv n s → load n t < u32_mod → Inv n t
  Step-Inv {s} (move i hi mv) v room = move-Inv n s v i hi mv room
  Step-Inv {s} (create i j hi hj e) v room = create-Inv n s v i j hi hj e _ refl room
  Step-Inv {s} (one_unsent i j rx m hi e l u k) v room =
      send-Inv v i j m _ hi (link-Linked n i _ rx j k) (ground arith) (ground arith) (ground arith)
        (λ js p. absurd (cc))
  Step-Inv {s} (next_unsent i j rx m rest hi e u k) v room =
      send-Inv v i j m _ hi (link-Linked n i _ rx j k) (ground arith) (ground arith) (ground arith)
        (λ js p. absurd (cc))
  Step-Inv {s} (tell i j js hi e) v room = tell-Inv v i j js hi e

  pub Reach-Inv : {s : System M} → Reach n s → Inv n s
  Reach-Inv (begin h) = start-Inv h
  Reach-Inv (later r st room) = Step-Inv st (Reach-Inv r) room
