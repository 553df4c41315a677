-- ===== src/Shutdown/Sorting.antt =====
-- The order in which `run_thread` (runtime/mod.rs) sends the messages that have piled up.
use dytor.Common.{◌≤◌, ◌≡◌, refl, arith, List, [], ◌∷◌, All, leb, Bool-cases, inl, inr, length}
use dytor.Context.{ContextId}
use dytor.Lookup.Groups.{sent_to}
use dytor.Shutdown.{insert_by_key, sort_by_key}
use dytor.Shutdown.Balance.{length-sort_by_key}

module _ {M : Type 0} where
  -- No message is for a context before that of the message in front of it.
  abbrev pub IsSorted : List (ContextId × M) → Type 0
  IsSorted [] = Unit {0}
  IsSorted (x ∷ xs) = All (λ y. x.0 ≤ y.0) xs × IsSorted xs

  All-insert_by_key :
      (k : ContextId) (x : ContextId × M) (ys : List (ContextId × M))
      → k ≤ x.0
      → All (λ y. k ≤ y.0) ys
      → All (λ y. k ≤ y.0) (insert_by_key x ys)
  unfolding insert_by_key
  All-insert_by_key k x [] h all = (h, tt)
  All-insert_by_key k x (y ∷ ys) h all = elim (Bool-cases (leb x.0 y.0)) [
    | inl e ↦ rw e (h, all)
    | inr e ↦ rw e (all.0, All-insert_by_key k x ys h all.1)
  ]

  All-below :
      (k l : ContextId) (ys : List (ContextId × M))
      → k ≤ l
      → All (λ y. l ≤ y.0) ys
      → All (λ y. k ≤ y.0) ys
  All-below k l [] h all = tt
  All-below k l (y ∷ ys) h all = (omega (arith, all.0), All-below k l ys h all.1)

  insert_by_key-IsSorted :
      (x : ContextId × M) (ys : List (ContextId × M)) → IsSorted ys → IsSorted (insert_by_key x ys)
  unfolding insert_by_key
  insert_by_key-IsSorted x [] s = (tt, tt)
  insert_by_key-IsSorted x (y ∷ ys) s = elim (Bool-cases (leb x.0 y.0)) [
    | inl e ↦ let h : x.0 ≤ y.0 = ground arith in rw e ((h, All-below x.0 y.0 ys h s.0), s)
    | inr e ↦ rw e (All-insert_by_key y.0 x ys (ground arith) s.0, insert_by_key-IsSorted x ys s.1)
  ]

  sent_to-insert_by_key :
      (c : ContextId) (x : ContextId × M) (ys : List (ContextId × M))
      → sent_to c (insert_by_key x ys) ≡ sent_to c (x ∷ ys)
  unfolding insert_by_key
  sent_to-insert_by_key c x [] = refl
  sent_to-insert_by_key c x (y ∷ ys) = ground (arith, sent_to-insert_by_key c x ys)

  sort_by_key-IsSorted : (xs : List (ContextId × M)) → IsSorted (sort_by_key xs)
  unfolding sort_by_key
  sort_by_key-IsSorted [] = tt
  sort_by_key-IsSorted (x ∷ xs) =
      insert_by_key-IsSorted x (sort_by_key xs) (sort_by_key-IsSorted xs)

  sent_to-sort_by_key :
      (c : ContextId) (xs : List (ContextId × M)) → sent_to c (sort_by_key xs) ≡ sent_to c xs
  unfolding sort_by_key
  sent_to-sort_by_key c [] = refl
  sent_to-sort_by_key c (x ∷ xs) =
      ground (arith, sent_to-insert_by_key c x (sort_by_key xs), sent_to-sort_by_key c xs)

  -- Sorting the unsent messages puts them in the order of their receivers, keeps their number, and
  -- keeps for each receiver the messages that are for it, in the order in which they were sent.
  pub sort_by_key_lem :
      (xs : List (ContextId × M))
      → IsSorted (sort_by_key xs)
        × (length (sort_by_key xs) ≡ length xs)
        × ((c : ContextId) → sent_to c (sort_by_key xs) ≡ sent_to c xs)
  sort_by_key_lem xs =
      (sort_by_key-IsSorted xs, length-sort_by_key xs, λ c. sent_to-sort_by_key c xs)
