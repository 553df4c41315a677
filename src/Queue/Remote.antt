-- ===== src/Queue/Remote.antt =====
-- crates/core/dytor/src/queue/remote.rs: the two ends of std's mpsc channel, whose calls are parameters.
use dytor.Common.{
  ℕ, zero, suc, ◌≡◌, refl, sym, ◌∙◌, ap, List, [], ◌∷◌, ◌++◌, Option, none, some, length, Bool,
  true,
}
use mathlib.Core.List.{append_assoc, append-nil}

-- `Result` of a call of the channel, with the channel that it leaves.
pub data Outcome (A : Type 0) : Type 0 where
  ok : A → Outcome A
  err : Outcome A

module _ {A C : Type 0} (mpsc_send : C → A → Outcome C) (mpsc_recv : C → Outcome (A × C)) where
  -- `Tx::send`; the error becomes a `SendError`
  unfoldable pub tx_send : C → A → Outcome C
  tx_send c value = elim (mpsc_send c value) [ ok c' ↦ ok c' | err ↦ err ]

  -- `Rx::recv`
  unfoldable pub rx_recv : C → Option (A × C)
  rx_recv c = elim (mpsc_recv c) [ ok x ↦ some x | err ↦ none ]

  abbrev pub tx_send_all : C → List A → Outcome C
  tx_send_all c [] = ok c
  tx_send_all c (x ∷ xs) = elim (tx_send c x) [ ok c' ↦ tx_send_all c' xs | err ↦ err ]

  -- So many calls of `Rx::recv`: the items and the channel.
  abbrev pub rx_recv_times : ℕ → C → Option (List A × C)
  rx_recv_times zero c = some ([], c)
  rx_recv_times (suc n) c = elim (rx_recv c) [
    | none ↦ none
    | some (x, c') ↦ elim (rx_recv_times n c') [ none ↦ none | some (xs, d) ↦ some (x ∷ xs, d) ]
  ]

  -- What std says of its channel: while the receiver exists, a sent item goes behind those in the
  -- channel, and a call of `recv` takes the first one.
  module _ (items : C → List A) (has_receiver : C → Bool)
      (sends : (c : C) (x : A)
        → has_receiver c ≡ true
        → (c' : C) × (mpsc_send c x ≡ ok c')
          × (items c' ≡ items c ++ x ∷ [])
          × (has_receiver c' ≡ true))
      (receives : (c : C) (x : A) (q : List A)
        → items c ≡ x ∷ q
        → (c' : C) × (mpsc_recv c ≡ ok (x, c')) × (items c' ≡ q)) where
    tx_send_all-items :
        (xs : List A) (c : C)
        → has_receiver c ≡ true
        → (c' : C) × (tx_send_all c xs ≡ ok c') × (items c' ≡ items c ++ xs)
    unfolding tx_send
    tx_send_all-items [] c alive = (c, refl, sym (append-nil (items c)))
    tx_send_all-items (x ∷ xs) c alive =
        let (c1, e, i, alive1) = sends c x alive in
        let (c2, f, j) = tx_send_all-items xs c1 alive1 in
        (
          c2,
          rw (tx_send_all, tx_send, e) f,
          j ∙ ap (λ l. l ++ xs) i ∙ append_assoc (items c) (x ∷ []) xs,
        )

    rx_recv_times-items :
        (xs rest : List A) (c : C)
        → items c ≡ xs ++ rest
        → (c' : C) × (rx_recv_times (length xs) c ≡ some (xs, c')) × (items c' ≡ rest)
    unfolding rx_recv
    rx_recv_times-items [] rest c i = (c, refl, i)
    rx_recv_times-items (x ∷ xs) rest c i =
        let (c1, e, j) = receives c x (xs ++ rest) i in
        let (c2, f, k) = rx_recv_times-items xs rest c1 j in
        (c2, rw (rx_recv_times, rx_recv, e, f) refl, k)

    -- While the receiver exists, any items can be sent, and as many calls of `recv` on an empty channel
    -- then return them in the order in which they were sent, and leave it empty.
    pub rx_recv_times-tx_send_all :
        (xs : List A) (c : C)
        → has_receiver c ≡ true
        → items c ≡ []
        → (c' d : C) × (tx_send_all c xs ≡ ok c')
          × (rx_recv_times (length xs) c' ≡ some (xs, d))
          × (items d ≡ [])
    rx_recv_times-tx_send_all xs c alive empty =
        let (c1, e, i) = tx_send_all-items xs c alive in
        let all : items c1 ≡ xs ++ [] = i ∙ ap (λ l. l ++ xs) empty ∙ sym (append-nil xs) in
        let (d, f, j) = rx_recv_times-items xs [] c1 all in (c1, d, e, f, j)
