-- ===== src/Replay/Transit.antt =====
-- The boxes of replay/src/producer.rs on their way: each is in use from the step that allocates it to
-- the one that frees it, for one event of one producer.
use dytor.Common.{
  ℕ, ◌≤◌, ◌≡◌, ◌≢◌, ◌⊎◌, inl, inr, sym, ◌∙◌, ap, subst, arith, List, [], ◌∷◌, ◌++◌, Option, none,
  some, times, ℕ_discrete,
}
use dytor.Replay.{Event}
use dytor.Replay.Boxes.{UntypedBox, Boxes}
use dytor.Replay.Producer.{Flow, Replaying, Becomes}
use dytor.Replay.Unboxed.{AllHold, addresses, AllHold-elsewhere}

abbrev pub entry_list : Option (Event UntypedBox) → List (Event UntypedBox)
entry_list none = []
entry_list (some e) = e ∷ []

-- Counts `before j x` and `after j x` which differ for `j` the same as `k` and `x` the same as `a` only.
module _ (before after : ℕ → ℕ → ℕ) (k a : ℕ) (others : (j x : ℕ) → k ≢ j → after j x ≡ before j x)
    (untouched : (j : ℕ) → k ≢ j → before j a ≡ 0) (kept : (x : ℕ) → x ≢ a → after k x ≡ before k x)
    (once : after k a ≤ 1) where
  after_cases : (j x : ℕ) → ((k ≡ j) × (x ≡ a)) ⊎ (after j x ≡ before j x)
  after_cases j x = elim (ℕ_discrete k j) [
    | no ne ↦ inr (others j x ne)
    | yes e ↦ elim (ℕ_discrete x a) [
      | yes q ↦ inl (e, q)
      | no ne ↦ inr (subst (λ i. after i x ≡ before i x) e (kept x ne))
    ]
  ]

  single-kept : ((j x : ℕ) → before j x ≤ 1) → (j x : ℕ) → after j x ≤ 1
  single-kept single j x = elim (after_cases j x) [
    | inl (e, q) ↦ subst (λ i. after i x ≤ 1) e (subst (λ y. after k y ≤ 1) (sym q) once)
    | inr q ↦ omega (arith, single j x)
  ]

  apart-kept :
      ((i j x : ℕ) → i ≢ j → 1 ≤ before i x → before j x ≡ 0)
      → (i j x : ℕ) → i ≢ j
      → 1 ≤ after i x
      → after j x ≡ 0
  apart-kept apart i j x ne h = elim (after_cases i x) [
    | inl (e, q) ↦
        others j x (λ r. ne (sym e ∙ r)) ∙ ap (before j) q ∙ untouched j (λ r. ne (sym e ∙ r))
    | inr same ↦ elim (after_cases j x) [
      | inr as_before ↦ as_before ∙ apart i j x ne (omega arith)
      | inl (e, q) ↦
          let empty : before i x ≡ 0 = ap (before i) q ∙ untouched i (λ r. ne (sym r ∙ e)) in
          absurd (omega arith)
    ]
  ]

module _ {Item : ℕ → Type 0} where
  -- The events of a producer that are boxed, in the order of its stream.
  abbrev pub in_transit : {τ : ℕ} → Flow Item τ → List (Event UntypedBox)
  in_transit f = f.sent ++ entry_list f.entry

  -- The processed events, then those that are boxed, then the rest of the stream are the stream.
  abbrev pub IsWhole : (boxes : Boxes Item) {τ : ℕ} → List (Event (Item τ)) → Flow Item τ → Type 0
  IsWhole boxes {τ} stream f =
      (evs : List (Event (Item τ))) × AllHold boxes τ (in_transit f) evs
      × (stream ≡ f.processed ++ evs ++ f.stream)

  -- How often a producer's boxed events have an address.
  abbrev pub uses : {τ : ℕ} → Flow Item τ → UntypedBox → ℕ
  uses f a = times a (addresses (in_transit f))

  IsWhole-elsewhere :
      (boxes boxes' : Boxes Item) {τ : ℕ} (stream : List (Event (Item τ))) (f : Flow Item τ)
      (a : UntypedBox)
      → ((x : UntypedBox) → x ≢ a → boxes' x ≡ boxes x)
      → uses f a ≡ 0
      → IsWhole boxes stream f
      → IsWhole boxes' stream f
  IsWhole-elsewhere boxes boxes' {τ} stream f a same h (evs, all, e) =
      (evs, AllHold-elsewhere boxes boxes' τ a same (in_transit f) evs h all, e)

  module _ (item_of : ℕ → ℕ) (streams : (k : ℕ) → List (Event (Item (item_of k)))) where
    -- The box is free, or that of an event of some producer.
    abbrev pub IsOwned : Replaying Item item_of → UntypedBox → Type 0
    IsOwned s a = (s.boxes a ≡ none) ⊎ ((k : ℕ) × (1 ≤ uses (s.flows k) a))

    pub record Inv (s : Replaying Item item_of) : Type 0 where
      pub whole : (k : ℕ) → IsWhole s.boxes (streams k) (s.flows k)
      pub single : (k : ℕ) (a : UntypedBox) → uses (s.flows k) a ≤ 1
      pub apart :
          (k j : ℕ) (a : UntypedBox) → k ≢ j → 1 ≤ uses (s.flows k) a → uses (s.flows j) a ≡ 0
      pub used : (a : UntypedBox) → IsOwned s a

    -- A step that is about one producer and one box keeps what holds of the others.
    pub Becomes-Inv :
        (s t : Replaying Item item_of) (k : ℕ) (a : UntypedBox)
        → Inv s
        → Becomes Item item_of s k t
        → ((x : UntypedBox) → x ≢ a → t.boxes x ≡ s.boxes x)
        → ((j : ℕ) → k ≢ j → uses (s.flows j) a ≡ 0)
        → ((x : UntypedBox) → x ≢ a → uses (t.flows k) x ≡ uses (s.flows k) x)
        → uses (t.flows k) a ≤ 1
        → (t.boxes a ≡ none) ⊎ (1 ≤ uses (t.flows k) a)
        → IsWhole t.boxes (streams k) (t.flows k)
        → Inv t
    Becomes-Inv s t k a v others same untouched kept once free whole =
        let before : ℕ → ℕ → ℕ = λ j x. uses (s.flows j) x in
        let after : ℕ → ℕ → ℕ = λ j x. uses (t.flows j) x in
        let other : (j x : ℕ) → k ≢ j → after j x ≡ before j x =
          λ j x ne. ap (λ f. uses f x) (others j (λ q. ne (sym q))) in
        record {
          whole = λ j. elim (ℕ_discrete k j) [
            | yes e ↦ subst (λ x. IsWhole t.boxes (streams x) (t.flows x)) e whole
            | no ne ↦ subst (IsWhole t.boxes (streams j)) (sym (others j (λ q. ne (sym q)))) (
                IsWhole-elsewhere s.boxes t.boxes (streams j) (s.flows j) a same (untouched j ne)
                  (v.whole j))
          ];
          single = single-kept before after k a other untouched kept once v.single;
          apart = apart-kept before after k a other untouched kept once v.apart;
          used = λ x. elim (ℕ_discrete x a) [
            | yes e ↦ subst (IsOwned t) (sym e) (elim free [ inl q ↦ inl q | inr q ↦ inr (k, q) ])
            | no ne ↦ elim (v.used x) [
              | inl q ↦ inl (same x ne ∙ q)
              | inr (j, q) ↦ elim (after_cases before after k a other untouched kept once j x) [
                | inl (_, r) ↦ absurd (ne r)
                | inr r ↦ inr (j, omega arith)
              ]
            ]
          ];
        }
