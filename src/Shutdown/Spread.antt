-- ===== src/Shutdown/Spread.antt =====
-- `run_thread` (runtime/mod.rs): from the step that takes the last count on, exactly one thread tells
-- the others to stop.
use dytor.Common.{
  ℕ, ◌+◌, ◌<◌, ◌≡◌, refl, sym, arith, true, false, [], ◌∷◌, ◌⊎◌, inl, inr, Bool-cases, update,
  times, update_self, update_other,
}
use dytor.Context.{ControlBlock}
use dytor.Shutdown.{
  msg, stopping, Ctx, Move, links, System, Step, move, create, one_unsent, next_unsent, tell, Reach,
  begin, later,
}
use dytor.Shutdown.Sums.{update_rule}
use dytor.Shutdown.Ending.{has_stop, over, has_stop-append}
use dytor.Shutdown.Links.{link-Linked}
use dytor.Shutdown.Invariant.{Inv}
use dytor.Shutdown.Reachable.{Reach-Inv}
use dytor.Shutdown.Told.{is_telling, told, Told, count_stops-zero, times-links, Move-starts}
use dytor.Shutdown.Telling.{Told-idle, Told-move, Told-tell}

-- No thread is told or tells, or one tells the others.
abbrev pub Stopping : {M : Type 0} → ℕ → System M → Type 0
Stopping n s = ((k : ℕ) → k < n → over (s.ctxs k) ≡ false) ⊎ Told n s

module _ {M : Type 0} (n : ℕ) where
  Told-starts :
      (s : System M) (b : ControlBlock) (i : ℕ) (c' : Ctx M)
      → ((k : ℕ) → k < n → over (s.ctxs k) ≡ false)
      → i < n
      → (c'.pc ≡ stopping (links n i)) × (has_stop c'.queue ≡ false)
      → Told n (record { block = b; ctxs = update s.ctxs i c' })
  Told-starts s b i c' none_over hi (p, q) = record {
    teller = i;
    below = hi;
    left = links n i;
    tells = inl (rw (update_self s.ctxs i c') p);
    untold = rw (update_self s.ctxs i c') (count_stops-zero c'.queue q);
    others = λ k hk ne. rw (update_other s.ctxs i k c' (λ e. ne (sym e))) (
        untold_before (s.ctxs k) (times k (links n i)) (none_over k hk)
          (times-links n i k (λ e. ne (sym e)) hk));
  }
    where
      untold_before :
          (c : Ctx M) (x : ℕ)
          → over c ≡ false
          → x ≡ 1
          → (is_telling c.pc ≡ false) × (told c + x ≡ 1)
      untold_before c x u one = ground (arith, count_stops-zero c.queue)

  Stopping-move :
      (s : System M) (b : ControlBlock) (i : ℕ) (c' : Ctx M)
      → ((k : ℕ) → k < n → over (s.ctxs k) ≡ false)
      → i < n
      → Move n i s.block (s.ctxs i) b c'
      → Stopping n (record { block = b; ctxs = update s.ctxs i c' })
  Stopping-move s b i c' none_over hi mv = elim (Bool-cases (over c')) [
    | inl o ↦ inr (
        Told-starts s b i c' none_over hi
          (Move-starts n i s.block (s.ctxs i) mv (none_over i hi) o))
    | inr u ↦ inl (λ k hk. update_rule (λ _ c. over c ≡ false) s.ctxs i k c' u (none_over k hk))
  ]

  -- Two contexts change, and none gets a `Stop`.
  still_none :
      (f : ℕ → Ctx M) (i j : ℕ) (a d : Ctx M)
      → ((k : ℕ) → k < n → over (f k) ≡ false)
      → over a ≡ false
      → over d ≡ false
      → (k : ℕ) → k < n
      → over (update (update f i a) j d k) ≡ false
  still_none f i j a d none_over u w k hk =
      update_rule (λ _ c. over c ≡ false) (update f i a) j k d w
        (update_rule (λ _ c. over c ≡ false) f i k a u (none_over k hk))

  pub Step-Told : {s t : System M} → Step n s t → Inv n s → Told n s → Told n t
  Step-Told {s} (move i hi mv) v t = Told-move n s v t _ i _ hi mv
  Step-Told {s} (create i j hi hj e) v t = absurd (ground (arith, Told-idle n s v t i hi))
  Step-Told {s} (one_unsent i j rx m hi e l u k) v t =
      absurd (ground (arith, Told-idle n s v t i hi))
  Step-Told {s} (next_unsent i j rx m rest hi e u k) v t =
      absurd (ground (arith, Told-idle n s v t i hi))
  Step-Told {s} (tell i j js hi e) v t = Told-tell n s v t i j js hi e

  Step-starts :
      {s t : System M} → Step n s t → ((k : ℕ) → k < n → over (s.ctxs k) ≡ false) → Stopping n t
  Step-starts {s} (move i hi mv) none_over = Stopping-move s _ i _ none_over hi mv
  Step-starts {s} (create i j hi hj e) none_over =
      inl
        (λ k hk. update_rule (λ _ c. over c ≡ false) s.ctxs j k _ (none_over j hj) (none_over k hk))
  Step-starts {s} (one_unsent i j rx m hi e l u k) none_over = inl (
      still_none s.ctxs i j _ _ none_over (ground (arith, none_over i hi)) (
        ground (
          arith,
          none_over j (link-Linked n i _ rx j k).0,
          has_stop-append (s.ctxs j).queue (msg m ∷ []),
        )))
  Step-starts {s} (next_unsent i j rx m rest hi e u k) none_over = inl (
      still_none s.ctxs i j _ _ none_over (ground (arith, none_over i hi)) (
        ground (
          arith,
          none_over j (link-Linked n i _ rx j k).0,
          has_stop-append (s.ctxs j).queue (msg m ∷ []),
        )))
  Step-starts {s} (tell i j js hi e) none_over = absurd (ground (arith, none_over i hi))

  Reach-Stopping : {s : System M} → Reach n s → Stopping n s
  Reach-Stopping (begin h) = inl (λ k hk. refl)
  Reach-Stopping (later r st room) = elim (Reach-Stopping r) [
    | inl none_over ↦ Step-starts st none_over
    | inr t ↦ inr (Step-Told st (Reach-Inv n r) t)
  ]

  -- In every reachable state in which some thread has stopped, is sending `Stop` or has `Stop` in its
  -- queue, one thread is sending it or has sent it, and has none in its own queue. Every other thread
  -- has stopped by a `Stop`, or has exactly one in its queue, or is still to be sent its one.
  pub Reach-Told : {s : System M} (i : ℕ) → Reach n s → i < n → over (s.ctxs i) ≡ true → Told n s
  Reach-Told i r hi o = elim (Reach-Stopping r) [
    | inl none_over ↦ absurd (cc (none_over i hi))
    | inr t ↦ t
  ]
