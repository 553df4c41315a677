-- ===== src/Shutdown/Stops.antt =====
-- `run_thread` (runtime/mod.rs): once a thread has taken the last count, all threads return.
use dytor.Common.{
  ℕ, zero, suc, ◌+◌, ◌<◌, ◌≡◌, ◌≢◌, refl, sym, subst, arith, Bool, true, false, List, [], ◌∷◌, ◌⊎◌,
  inl, inr, length, u32_mod, Bool-cases, List-cases, ℕ_discrete, update,
}
use dytor.Context.{ControlBlock}
use dytor.Shutdown.{
  QueueItem, msg, accessor_dropped, stop, Pc, initialising, first_drain, waiting, running, sending,
  dropped, stopping, stopped, Ctx, Move, recv_stop, all_sent, all_told, cell, events, sum_below,
  System, receive, Step, move, create, one_unsent, next_unsent, tell, Reach, later, load,
}
use dytor.Shutdown.Sums.{sum-update, sum-update_two}
use dytor.Shutdown.Balance.{events-append}
use dytor.Shutdown.Ending.{over, Move-idle}
use dytor.Shutdown.Invariant.{Inv}
use dytor.Shutdown.Reachable.{Reach-Inv}
use dytor.Shutdown.Told.{
  count_stops, is_telling, Told, Quiet, receives, sent_all, told_all, Move-Quiet,
}
use dytor.Shutdown.Spread.{Reach-Told, Step-Told}
use dytor.Shutdown.Telling.{Told-idle, teller_over}

-- The steps that a thread has left when no event is left.
abbrev pub rounds : Pc → ℕ
rounds waiting = 1
rounds sending = 2
rounds (stopping js) = suc (length js)
rounds _ = 0

abbrev pub rounds_left : {M : Type 0} → ℕ → System M → ℕ
rounds_left n s = sum_below (λ c. rounds c.pc) n s.ctxs

-- So many steps, one after another.
pub data Steps {M : Type 0} (n : ℕ) (s : System M) : ℕ → System M → Type 0 where
  here : Steps n s zero s
  next : {m : ℕ} {t u : System M} → Steps n s m t → Step n t u → Steps n s (suc m) u

Quiet-rounds : {M : Type 0} (c c' : Ctx M) → Quiet c c' → suc (rounds c'.pc) ≡ rounds c.pc
Quiet-rounds c c' (receives e p q) = ground arith
Quiet-rounds c c' (sent_all e p q) = ground arith
Quiet-rounds c c' (told_all e p q) = ground arith

module _ {M : Type 0} (n : ℕ) {s : System M} (v : Inv n s) (t : Told n s) where
  tell-cell :
      (i j : ℕ) (js : List ℕ)
      → (s.ctxs i).pc ≡ stopping (j ∷ js)
      → (cell (record (s.ctxs i) { pc = stopping js }) ≡ cell (s.ctxs i))
        × (cell (receive (s.ctxs j) stop) ≡ cell (s.ctxs j))
        × (suc (rounds (stopping js)) ≡ rounds (s.ctxs i).pc)
  tell-cell i j js e =
      (ground arith, omega (arith, events-append (s.ctxs j).queue (stop ∷ [])), ground arith)

  move-quiet :
      (i : ℕ) {b : ControlBlock} {c : Ctx M}
      → i < n
      → Move n i s.block (s.ctxs i) b c
      → (load n (record { block = b; ctxs = update s.ctxs i c }) ≡ load n s)
        × (suc (rounds_left n (record { block = b; ctxs = update s.ctxs i c })) ≡ rounds_left n s)
  move-quiet i {c} hi mv =
      let z = Told-idle n s v t i hi in
      let same = Move-idle n i s.block (s.ctxs i) mv z in
      let fewer = Quiet-rounds (s.ctxs i) c (Move-Quiet n i s.block (s.ctxs i) mv z) in
      (
        omega (arith, sum-update cell n s.ctxs i c hi),
        omega (arith, sum-update (λ d. rounds d.pc) n s.ctxs i c hi),
      )

  -- Each step is one of those that are left, and makes no event.
  Step-quiet :
      {u : System M}
      → Step n s u
      → (load n u ≡ load n s) × (suc (rounds_left n u) ≡ rounds_left n s)
  Step-quiet (move i hi mv) = move-quiet i hi mv
  Step-quiet (create i j hi hj e) = absurd (ground (arith, Told-idle n s v t i hi))
  Step-quiet (one_unsent i j rx m hi e l u k) = absurd (ground (arith, Told-idle n s v t i hi))
  Step-quiet (next_unsent i j rx m rest hi e u k) = absurd (ground (arith, Told-idle n s v t i hi))
  Step-quiet (tell i j js hi e) =
      let (hj, ne) = (v.telling i hi (j ∷ js) e).0 in
      let (x, y, z) = tell-cell i j js e in
      let a : Ctx M = record (s.ctxs i) { pc = stopping js } in
      let d : Ctx M = receive (s.ctxs j) stop in
      (
        omega (arith, sum-update_two cell n s.ctxs i j a d hi hj ne),
        omega (arith, sum-update_two (λ c. rounds c.pc) n s.ctxs i j a d hi hj ne),
      )

  -- The stop that is left in the queue of a context is at its head.
  only_stops :
      (q : List (QueueItem M))
      → events q ≡ 0
      → count_stops q ≡ 1
      → (r : List (QueueItem M)) × (q ≡ stop ∷ r)
  only_stops [] z o = absurd (omega arith)
  only_stops (stop ∷ r) z o = (r, refl)
  only_stops (msg m ∷ r) z o = absurd (omega arith)
  only_stops (accessor_dropped ∷ r) z o = absurd (omega arith)

length-zero : {A : Type 0} (xs : List A) → length xs ≡ 0 → xs ≡ []
length-zero [] h = refl
length-zero (x ∷ xs) h = absurd (omega arith)

abbrev is_stopped : Pc → Bool
is_stopped stopped = true
is_stopped _ = false

find_left :
    {M : Type 0} (n : ℕ) (f : ℕ → Ctx M)
    → ((k : ℕ) → k < n → (f k).pc ≡ stopped) ⊎ ((k : ℕ) × (k < n) × (is_stopped (f k).pc ≡ false))
find_left zero f = inl (λ k h. absurd (omega arith))
find_left (suc n) f = elim (find_left n f) [
  | inr (k, h, u) ↦ inr (k, omega arith, u)
  | inl all ↦ elim (Bool-cases (is_stopped (f n).pc)) [
    | inr u ↦ inr (n, omega arith, u)
    | inl o ↦ inl (λ k h. below_suc n k (λ j. (f j).pc ≡ stopped) h all (ground arith))
  ]
]
  where
    below_suc : (n k : ℕ) (P : ℕ → Type 0) → k < suc n → ((j : ℕ) → j < n → P j) → P n → P k
    below_suc n k P h all last = elim (ℕ_discrete k n) [
      | yes e ↦ subst P (sym e) last
      | no ne ↦ all k (omega arith)
    ]

module _ {M : Type 0} (n : ℕ) {s : System M} (v : Inv n s) (t : Told n s) where
  -- A thread that has not returned yet can take a step, or the one that tells it can.
  step_of : (k : ℕ) → k < n → is_stopped (s.ctxs k).pc ≡ false → (u : System M) × Step n s u
  step_of k hk u = elim t.tells [
    | inl e ↦ elim (List-cases t.left) [
      | inl none_left ↦ (_, move t.teller t.below (all_told (rw none_left at e)))
      | inr (j, js, more) ↦ (_, tell t.teller j js t.below (rw more at e))
    ]
    | inr (e, none_left) ↦
        let k_other : k ≢ t.teller = λ q. cc (subst (λ j. is_stopped (s.ctxs j).pc ≡ false) q u) in
        let (w, sum) = t.others k hk k_other in
        let z = Told-idle n s v t k hk in
        let one : count_stops (s.ctxs k).queue ≡ 1 = ground (arith, rw none_left at sum) in
        let (r, q) = only_stops n v t (s.ctxs k).queue (omega arith) one in
        takes (s.ctxs k).pc refl u w z q
  ]
    where
      takes :
          (p : Pc)
          → (s.ctxs k).pc ≡ p
          → is_stopped (s.ctxs k).pc ≡ false
          → is_telling (s.ctxs k).pc ≡ false
          → cell (s.ctxs k) ≡ 0
          → {r : List (QueueItem M)} → (s.ctxs k).queue ≡ stop ∷ r
          → (u : System M) × Step n s u
      takes waiting e u w z q = (_, move k hk (recv_stop e q))
      takes sending e u w z q = (
        _,
        move k hk (all_sent e (length-zero (s.ctxs k).data_of.unsent_messages (ground arith))),
      )
      takes stopped e u w z q = absurd (cc)
      takes (stopping js) e u w z q = absurd (cc)
      takes initialising e u w z q = absurd (ground arith)
      takes first_drain e u w z q = absurd (ground arith)
      takes running e u w z q = absurd (ground arith)
      takes dropped e u w z q = absurd (ground arith)

  progress : ((k : ℕ) → k < n → (s.ctxs k).pc ≡ stopped) ⊎ ((u : System M) × Step n s u)
  progress = elim (find_left n s.ctxs) [ inl all ↦ inl all | inr (k, hk, u) ↦ inr (step_of k hk u) ]

module _ {M : Type 0} (n : ℕ) where
  Steps-Told :
      {s u : System M} {m : ℕ}
      → Reach n s
      → Told n s
      → Steps n s m u
      → Reach n u × Told n u × (load n u ≡ 0) × (m + rounds_left n u ≡ rounds_left n s)
  Steps-Told {s} r t here = (
    r,
    t,
    (Reach-Inv n r).over_quiet t.teller t.below (teller_over n s (Reach-Inv n r) t),
    omega arith,
  )
  Steps-Told {u} r t (next run st) =
      let (r', t', z, sum) = Steps-Told r t run in
      let v = Reach-Inv n r' in
      let (same, fewer) = Step-quiet n v t' st in
      let room : load n u < u32_mod = omega (arith, v.small) in
      (later r' st room, Step-Told n st v t', omega arith, omega arith)

  -- From a reachable state in which some thread has stopped, is sending `Stop` or has `Stop` in its
  -- queue, every run takes at most the steps that are left by `rounds_left`, one of which each of its
  -- steps takes, and as long as some thread has not returned, a further step is possible.
  pub stopping_run :
      (s u : System M) (m i : ℕ)
      → Reach n s
      → i < n
      → over (s.ctxs i) ≡ true
      → Steps n s m u
      → (m + rounds_left n u ≡ rounds_left n s)
        × (((k : ℕ) → k < n → (u.ctxs k).pc ≡ stopped) ⊎ ((w : System M) × Step n u w))
  stopping_run s u m i r hi o run =
      let (r', t, z, sum) = Steps-Told r (Reach-Told n i r hi o) run in
      (sum, progress n (Reach-Inv n r') t)
