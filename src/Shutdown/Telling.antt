-- ===== src/Shutdown/Telling.antt =====
-- `run_thread` (runtime/mod.rs): while one thread tells the others to stop, a step of any thread keeps
-- what was told.
use dytor.Common.{
  ℕ, ◌+◌, ◌<◌, ◌≡◌, ◌≢◌, refl, sym, ◌∙◌, subst, arith, true, false, List, [], ◌∷◌, inl, inr,
  ℕ_discrete, update, times, update_self, update_other,
}
use dytor.Context.{ControlBlock}
use dytor.Shutdown.{stop, stopping, stopped, Ctx, Move, cell, System, receive}
use dytor.Shutdown.Sums.{update_rule}
use dytor.Shutdown.Ending.{over}
use dytor.Shutdown.Invariant.{Inv, cell-le-load}
use dytor.Shutdown.Told.{
  count_stops, is_telling, told, Told, count_stops-append, Quiet, receives, sent_all, told_all,
  Move-Quiet,
}

module _ {M : Type 0} (n : ℕ) (s : System M) (v : Inv n s) where
  -- While a thread is told or tells, no context has an event.
  pub quiet-cell : (i k : ℕ) → i < n → over (s.ctxs i) ≡ true → k < n → cell (s.ctxs k) ≡ 0
  quiet-cell i k hi o hk = omega (arith, v.over_quiet i hi o, cell-le-load n s v k hk)

  module _ (t : Told n s) where
    pub teller_over : over (s.ctxs t.teller) ≡ true
    teller_over = elim t.tells [ inl e ↦ ground arith | inr (e, _) ↦ ground arith ]

    pub Told-idle : (k : ℕ) → k < n → cell (s.ctxs k) ≡ 0
    Told-idle k hk = quiet-cell t.teller k t.below teller_over hk

    -- The thread itself moves: it has told all.
    teller-told_all :
        (c' : Ctx M)
        → Quiet (s.ctxs t.teller) c'
        → (t.left ≡ []) × (c'.pc ≡ stopped) × (c'.queue ≡ (s.ctxs t.teller).queue)
    teller-told_all c' (receives e p q) = absurd (elim t.tells [ inl f ↦ cc | inr (f, _) ↦ cc ])
    teller-told_all c' (sent_all e p q) = absurd (elim t.tells [ inl f ↦ cc | inr (f, _) ↦ cc ])
    teller-told_all c' (told_all e p q) =
        (elim t.tells [ inl f ↦ ground arith | inr (f, _) ↦ absurd (cc) ], p, q)

    -- Another thread moves.
    other-told :
        (i : ℕ) (c' : Ctx M)
        → is_telling (s.ctxs i).pc ≡ false
        → Quiet (s.ctxs i) c'
        → (is_telling c'.pc ≡ false) × (told c' ≡ told (s.ctxs i))
    other-told i c' u (receives e p q) = ground arith
    other-told i c' u (sent_all e p q) = ground arith
    other-told i c' u (told_all e p q) = absurd (cc)

    Told-move_teller :
        (b : ControlBlock) (c' : Ctx M)
        → Quiet (s.ctxs t.teller) c'
        → Told n (record { block = b; ctxs = update s.ctxs t.teller c' })
    Told-move_teller b c' q =
        let (none_left, p, same) = teller-told_all c' q in
        record {
          teller = t.teller;
          below = t.below;
          left = [];
          tells = inr (rw (update_self s.ctxs t.teller c') p, refl);
          untold = rw (update_self s.ctxs t.teller c', same) t.untold;
          others = λ k hk ne.
              let (u, sum) = t.others k hk ne in
              rw (update_other s.ctxs t.teller k c' (λ e. ne (sym e))) (u, rw none_left at sum);
        }

    Told-move_other :
        (b : ControlBlock) (i : ℕ) (c' : Ctx M)
        → i < n
        → i ≢ t.teller
        → Quiet (s.ctxs i) c'
        → Told n (record { block = b; ctxs = update s.ctxs i c' })
    Told-move_other b i c' hi ne q =
        let (u, sum) = t.others i hi ne in
        let (u', same) = other-told i c' u q in
        record {
          teller = t.teller;
          below = t.below;
          left = t.left;
          tells = rw (update_other s.ctxs i t.teller c' ne) t.tells;
          untold = rw (update_other s.ctxs i t.teller c' ne) t.untold;
          others = λ k hk nk.
              update_rule (λ k c. (is_telling c.pc ≡ false) × (told c + times k t.left ≡ 1)) s.ctxs
                i k c' (u', omega (arith, same, sum)) (t.others k hk nk);
        }

    pub Told-move :
        (b : ControlBlock) (i : ℕ) (c' : Ctx M)
        → i < n
        → Move n i s.block (s.ctxs i) b c'
        → Told n (record { block = b; ctxs = update s.ctxs i c' })
    Told-move b i c' hi mv =
        let q = Move-Quiet n i s.block (s.ctxs i) mv (Told-idle i hi) in
        elim (ℕ_discrete i t.teller) [
          | yes e ↦
              subst
                (λ j.
                  Quiet (s.ctxs j) c' → Told n (record { block = b; ctxs = update s.ctxs j c' }))
                (sym e) (Told-move_teller b c') q
          | no ne ↦ Told-move_other b i c' hi ne q
        ]

    pub telling-teller : (i : ℕ) → i < n → is_telling (s.ctxs i).pc ≡ true → i ≡ t.teller
    telling-teller i hi u = elim (ℕ_discrete i t.teller) [
      | yes e ↦ e
      | no ne ↦ absurd (cc ((t.others i hi ne).0))
    ]

    -- The thread that tells the next one.
    module _ (i j : ℕ) (js : List ℕ) (hi : i < n) (e : (s.ctxs i).pc ≡ stopping (j ∷ js)) where
      itself : i ≡ t.teller
      itself = telling-teller i hi (ground arith)

      pub left-is : t.left ≡ j ∷ js
      left-is =
          let f : (s.ctxs t.teller).pc ≡ stopping (j ∷ js) =
            subst (λ k. (s.ctxs k).pc ≡ stopping (j ∷ js)) itself e in
          elim t.tells [ inl g ↦ ground arith | inr (g, _) ↦ absurd (cc) ]

      abbrev told_ctxs : ℕ → Ctx M
      told_ctxs =
          update (update s.ctxs i (record (s.ctxs i) { pc = stopping js })) j
            (receive (s.ctxs j) stop)

      told-next :
          (is_telling (s.ctxs j).pc ≡ false)
          → told (s.ctxs j) + times j (j ∷ js) ≡ 1
          → told (receive (s.ctxs j) stop) + times j js ≡ 1
      told-next u sum = ground (arith, count_stops-append (s.ctxs j).queue (stop ∷ []))

      others-tell :
          (k : ℕ)
          → k < n
          → k ≢ i
          → (is_telling (told_ctxs k).pc ≡ false) × (told (told_ctxs k) + times k js ≡ 1)
      others-tell k hk ne =
          let (u, sum) = t.others k hk (λ q. ne (q ∙ sym itself)) in
          let sum' : told (s.ctxs k) + times k (j ∷ js) ≡ 1 = rw left-is at sum in
          elim (ℕ_discrete j k) [
            | yes same ↦
                subst
                  (λ l.
                    (is_telling (told_ctxs l).pc ≡ false) × (told (told_ctxs l) + times l js ≡ 1))
                  same
                  (rw
                    (update_self (update s.ctxs i (record (s.ctxs i) { pc = stopping js })) j
                      (receive (s.ctxs j) stop))
                    (let u' : is_telling (s.ctxs j).pc ≡ false = rw same u in
                      (
                        u',
                        told-next u'
                            (subst (λ l. told (s.ctxs l) + times l (j ∷ js) ≡ 1) (sym same) sum'),
                      )))
            | no other ↦
                rw
                  (
                    update_other (update s.ctxs i (record (s.ctxs i) { pc = stopping js })) j k
                        (receive (s.ctxs j) stop) other,
                    update_other s.ctxs i k (record (s.ctxs i) { pc = stopping js })
                        (λ q. ne (sym q)),
                  )
                  (u, ground arith)
          ]

      pub Told-tell : Told n (record s {
        ctxs =
            update
              (update s.ctxs i (record (s.ctxs i) { pc = stopping js }))
              j
              (receive (s.ctxs j) stop);
      })
      Told-tell =
          let (hj, ne) = (v.telling i hi (j ∷ js) e).0 in
          let at =
            update_other (update s.ctxs i (record (s.ctxs i) { pc = stopping js })) j i
              (receive (s.ctxs j) stop) (λ q. ne (sym q)) in
          let own = update_self s.ctxs i (record (s.ctxs i) { pc = stopping js }) in
          record {
            teller = i;
            below = hi;
            left = js;
            tells = inl (rw (at, own) refl);
            untold =
                rw (at, own) (subst (λ k. count_stops (s.ctxs k).queue ≡ 0) (sym itself) t.untold);
            others = others-tell;
          }
