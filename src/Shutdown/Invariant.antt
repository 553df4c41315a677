-- ===== src/Shutdown/Invariant.antt =====
-- `run_thread` (runtime/mod.rs) on all threads: the control block counts the events that are left,
-- and no thread ends, and the block is not freed, before there are none.
use dytor.Common.{
  ℕ, suc, ◌+◌, ◌≤◌, ◌<◌, ◌≡◌, ◌≢◌, inl, inr, true, false, arith, u32_mod, Bool-cases, update,
}
use dytor.Context.{ControlBlock, clone}
use dytor.Shutdown.{initialising, Ctx, Move, cell, System, load}
use dytor.Shutdown.Sums.{update_rule, sum-update, sum-update_two, le-sum}
use dytor.Shutdown.Balance.{Move-balance}
use dytor.Shutdown.Ending.{over, Last, Move-over, Move-freed, Move-idle, Telling, Move-Telling}

module _ {M : Type 0} (n : ℕ) where
  pub record Inv (s : System M) : Type 0 where
    pub counted : s.block.unhandled_events ≡ load n s
    pub small : load n s < u32_mod
    pub over_quiet : (i : ℕ) → i < n → over (s.ctxs i) ≡ true → load n s ≡ 0
    pub freed_quiet : s.block.freed ≡ true → load n s ≡ 0
    pub telling : (i : ℕ) → i < n → Telling n i (s.ctxs i)

  module _ (s : System M) (v : Inv s) where
    pub cell-le-load : (i : ℕ) → i < n → cell (s.ctxs i) ≤ load n s
    cell-le-load i h = le-sum cell n s.ctxs i h

    -- While an event is left, no thread is over.
    pub busy-over : (i j : ℕ) → i < n → j < n → 1 ≤ cell (s.ctxs i) → over (s.ctxs j) ≡ false
    busy-over i j hi hj e = elim (Bool-cases (over (s.ctxs j))) [
      | inl o ↦ absurd (omega (arith, v.over_quiet j hj o, cell-le-load i hi))
      | inr u ↦ u
    ]

    pub busy-freed : (i : ℕ) → i < n → 1 ≤ cell (s.ctxs i) → s.block.freed ≡ false
    busy-freed i hi e = elim (Bool-cases s.block.freed) [
      | inl o ↦ absurd (omega (arith, v.freed_quiet o, cell-le-load i hi))
      | inr u ↦ u
    ]

    module _ (i : ℕ) (hi : i < n) {b : ControlBlock} {c : Ctx M}
        (mv : Move n i s.block (s.ctxs i) b c)
        (room : load n (record { block = b; ctxs = update s.ctxs i c }) < u32_mod) where
      abbrev moved : System M
      moved = record { block = b; ctxs = update s.ctxs i c }

      moved-load : load n moved + cell (s.ctxs i) ≡ load n s + cell c
      moved-load = sum-update cell n s.ctxs i c hi

      moved-counted : b.unhandled_events ≡ load n moved
      moved-counted =
          let balance = Move-balance n i s.block (s.ctxs i) mv (record {
            covers = omega (arith, v.counted, cell-le-load i hi);
            small = omega (arith, v.counted, v.small);
            fits = omega (arith, v.counted, moved-load);
          }) in
          omega (arith, balance, v.counted, moved-load)

      idle-load : load n s ≡ 0 → load n moved ≡ 0
      idle-load z =
          let own_zero : cell (s.ctxs i) ≡ 0 = omega (arith, cell-le-load i hi) in
          omega (arith, moved-load, Move-idle n i s.block (s.ctxs i) mv own_zero)

      load-Last : Last n i s.block (s.ctxs i) c → load n moved ≡ 0
      load-Last (few, taken) = omega (arith, v.counted, moved-load)

      moved-over : (k : ℕ) → k < n → over (update s.ctxs i c k) ≡ true → load n moved ≡ 0
      moved-over k hk =
          update_rule (λ _ d. over d ≡ true → load n moved ≡ 0) s.ctxs i k c own_over
            (λ o. idle-load (v.over_quiet k hk o))
        where
          own_over : over c ≡ true → load n moved ≡ 0
          own_over o = elim (Bool-cases (over (s.ctxs i))) [
            | inl before ↦ idle-load (v.over_quiet i hi before)
            | inr u ↦ load-Last (Move-over n i s.block (s.ctxs i) mv o u)
          ]

      moved-freed : b.freed ≡ true → load n moved ≡ 0
      moved-freed f = elim (Bool-cases s.block.freed) [
        | inl before ↦ idle-load (v.freed_quiet before)
        | inr u ↦ load-Last (Move-freed n i s.block (s.ctxs i) mv f u)
      ]

      moved-Telling : (k : ℕ) → k < n → Telling n k (update s.ctxs i c k)
      moved-Telling k hk =
          update_rule (Telling n) s.ctxs i k c
            (Move-Telling n i s.block (s.ctxs i) mv (v.telling i hi)) (v.telling k hk)

      pub move-Inv : Inv moved
      move-Inv = record {
        counted = moved-counted;
        small = room;
        over_quiet = moved-over;
        freed_quiet = moved-freed;
        telling = moved-Telling;
      }

    -- Two contexts change while the first has an event, so that none is over.
    module _ (i j : ℕ) (hi : i < n) (hj : j < n) (ne : i ≢ j) (a d : Ctx M) where
      abbrev passed : System M
      passed = record s { ctxs = update (update s.ctxs i a) j d }

      passed-load : load n passed + cell (s.ctxs i) + cell (s.ctxs j) ≡ load n s + cell a + cell d
      passed-load = sum-update_two cell n s.ctxs i j a d hi hj ne

      pub passed-Inv :
          cell a + cell d ≡ cell (s.ctxs i) + cell (s.ctxs j)
          → (over a ≡ true → load n s ≡ 0)
          → (over d ≡ true → load n s ≡ 0)
          → Telling n i a
          → Telling n j d
          → Inv passed
      passed-Inv same oa od ta td = record {
        counted = omega (arith, v.counted, passed-load);
        small = omega (arith, v.small, passed-load);
        over_quiet = λ k hk.
            update_rule (λ _ x. over x ≡ true → load n passed ≡ 0) (update s.ctxs i a) j k d
              (λ o. omega (arith, od o, passed-load))
              (update_rule (λ _ x. over x ≡ true → load n passed ≡ 0) s.ctxs i k a
                (λ o. omega (arith, oa o, passed-load))
                (λ o. omega (arith, v.over_quiet k hk o, passed-load)));
        freed_quiet = λ f. omega (arith, v.freed_quiet f, passed-load);
        telling = λ k hk.
            update_rule (Telling n) (update s.ctxs i a) j k d td
              (update_rule (Telling n) s.ctxs i k a ta (v.telling k hk));
      }

    pub create-Inv :
        (i j : ℕ)
        → i < n
        → j < n
        → (s.ctxs i).pc ≡ initialising
        → (d : Ctx M) → d ≡ record (s.ctxs j) { accessors = suc (s.ctxs j).accessors }
        → load n (record { block = clone s.block; ctxs = update s.ctxs j d }) < u32_mod
        → Inv (record { block = clone s.block; ctxs = update s.ctxs j d })
    create-Inv i j hi hj e d is room =
        let t : System M = record { block = clone s.block; ctxs = update s.ctxs j d } in
        let sums : load n t ≡ suc (load n s) = ground (arith, sum-update cell n s.ctxs j d hj) in
        let busy : 1 ≤ cell (s.ctxs i) = ground arith in
        record {
          counted = omega (arith, v.counted, v.small, sums);
          small = room;
          over_quiet = λ k hk.
              update_rule (λ _ x. over x ≡ true → load n t ≡ 0) s.ctxs j k d
                (ground (arith, busy-over i j hi hj busy))
                (ground (arith, busy-over i k hi hk busy));
          freed_quiet = ground (arith, busy-freed i hi busy);
          telling = λ k hk.
              update_rule (Telling n) s.ctxs j k d (λ js p. v.telling j hj js (ground arith))
                (v.telling k hk);
        }
