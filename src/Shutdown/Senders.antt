-- ===== src/Shutdown/Senders.antt =====
-- The `Tx` ends of a context's queue (queue/remote.rs), and what `recv` of `run_thread`
-- (runtime/mod.rs) does on an empty queue: std's channel has it wait while there is a sender.
use dytor.Common.{
  ℕ, zero, suc, ◌+◌, ◌≤◌, ◌<◌, ◌≡◌, ◌≢◌, arith, true, false, ◌==◌, [], length, Memᴰ, ℕ_discrete,
}
use mathlib.Core.List.Memᴰ
use dytor.Shutdown.{initialising, waiting, stopped, System, links_from, links}

-- Who holds a `Tx` of the queue of context `j`.
pub data HasSender {M : Type 0} (n : ℕ) (s : System M) (j : ℕ) : Type 0 where
  -- `Context::links`, which a thread drops when it returns
  has_link : (k : ℕ) → k < n → (s.ctxs k).pc ≢ stopped → Memᴰ j (links n k) → HasSender n s j
  -- `InitData::make_tx`, which `create_context` drops
  has_make_tx : (k : ℕ) → k < n → (s.ctxs k).pc ≡ initialising → HasSender n s j
  -- an `Accessor`, also one that sends
  has_accessor : 0 < (s.ctxs j).accessors → HasSender n s j
  is_sending : 0 < length (s.ctxs j).in_flight → HasSender n s j

-- The thread waits in `recv`.
pub record IsBlocked {M : Type 0} (n : ℕ) (s : System M) (j : ℕ) : Type 0 where
  pub at_recv : (s.ctxs j).pc ≡ waiting
  pub no_item : (s.ctxs j).queue ≡ []
  pub sender : HasSender n s j

-- `recv` returns `None`, and the thread panics in the `unwrap`.
pub record IsPanicking {M : Type 0} (n : ℕ) (s : System M) (j : ℕ) : Type 0 where
  pub at_recv : (s.ctxs j).pc ≡ waiting
  pub no_item : (s.ctxs j).queue ≡ []
  pub no_sender : ¬ HasSender n s j

links_from-Memᴰ : (k j i x : ℕ) → j ≤ x → x < j + k → x ≢ i → Memᴰ x (links_from k j i)
unfolding links_from
links_from-Memᴰ zero j i x a b ne = absurd (omega arith)
links_from-Memᴰ (suc k) j i x a b ne = elim (ℕ_discrete x j) [
  | yes same ↦ let t : (i == j) ≡ false = ground arith in rw t (Memᴰ.head same)
  | no other ↦
      let rest : Memᴰ x (links_from k (suc j) i) =
        links_from-Memᴰ k (suc j) i x (omega arith) (omega arith) ne in
      elim (ℕ_discrete i j) [
        | yes same ↦ let t : (i == j) ≡ true = ground arith in rw t rest
        | no apart ↦ let t : (i == j) ≡ false = ground arith in rw t (Memᴰ.tail rest)
      ]
]

-- Each context has a link to every other one.
pub links-Memᴰ : (n i x : ℕ) → x < n → x ≢ i → Memᴰ x (links n i)
unfolding links
links-Memᴰ n i x lt ne = links_from-Memᴰ n 0 i x (omega arith) (omega arith) ne

module _ {M : Type 0} (n : ℕ) (s : System M) (all : (k : ℕ) → k < n → (s.ctxs k).pc ≡ waiting) where
  -- Of several threads that wait, each has links to the others.
  pub waiting-HasSender : (j : ℕ) → 1 < n → j < n → HasSender n s j
  waiting-HasSender j more hj = elim (ℕ_discrete j 0) [
    | yes e ↦ has_link 1 more (λ p. let w = all 1 more in cc) (links-Memᴰ n 1 j hj (omega arith))
    | no e ↦
        let h : 0 < n = omega arith in
        has_link 0 h (λ p. let w = all 0 h in cc) (links-Memᴰ n 0 j hj e)
  ]

  -- A thread that waits has no link to its own context.
  pub lone-HasSender :
      n ≡ 1 → (s.ctxs 0).accessors ≡ 0 → length (s.ctxs 0).in_flight ≡ 0 → ¬ HasSender n s 0
  unfolding links
  lone-HasSender e a f (has_link k hk p m) =
      let z : k ≡ 0 = omega arith in Memᴰ.not-nil (rw (e, z) at m)
  lone-HasSender e a f (has_make_tx k hk p) = let w = all k hk in cc
  lone-HasSender e a f (has_accessor h) = omega arith
  lone-HasSender e a f (is_sending h) = omega arith
