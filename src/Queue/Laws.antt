-- ===== src/Queue/Laws.antt =====
-- The order in which local.rs hands its items out.
use mathlib.Core.List.{reverse, reverse-append}
use dytor.Common.{
  ℕ, suc, zero, ◌≡◌, List, [], ◌∷◌, ◌++◌, Option, none, some, refl, length, Option-cases, inl, inr,
  ap, ◌∙◌, sym, ◌⊎◌,
}
use dytor.Queue.{LocalQueue, send, recv}

module _ {ℓ} {A : Type ℓ} where
  recv-append : (xs : List A) (x : A) → recv (xs ++ x ∷ []) ≡ some (x, xs)
  unfolding recv
  recv-append [] x = refl
  recv-append (y ∷ xs) x = rw (recv-append xs x) refl

  recv-send : (xs : LocalQueue A) (x : A) → recv (send xs x) ≡ some (x, xs)
  unfolding send
  recv-send xs x = recv-append xs x

  -- The queue is empty, or its last item is taken.
  pub recv-cases :
      (q : LocalQueue A)
      → ((q ≡ []) × (recv q ≡ none))
        ⊎ ((x : A) × (rest : LocalQueue A) × (q ≡ rest ++ x ∷ []) × (recv q ≡ some (x, rest)))
  unfolding recv
  recv-cases [] = inl (refl, refl)
  recv-cases (y ∷ q) = elim (recv-cases q) [
    | inl (e, none_left) ↦ inr (y, [], ap (λ l. y ∷ l) e, rw none_left refl)
    | inr (x, rest, e, taken) ↦ inr (x, y ∷ rest, ap (λ l. y ∷ l) e, rw taken refl)
  ]

  abbrev pub send_all : LocalQueue A → List A → LocalQueue A
  send_all q [] = q
  send_all q (x ∷ xs) = send_all (send q x) xs

  -- The items of so many calls of `recv`, and the queue that they leave.
  abbrev pub recv_times : ℕ → LocalQueue A → Option (List A × LocalQueue A)
  recv_times zero q = some ([], q)
  recv_times (suc n) q = elim (recv q) [
    | none ↦ none
    | some (x, rest) ↦ elim (recv_times n rest) [ none ↦ none | some (ys, r) ↦ some (x ∷ ys, r) ]
  ]

  recv_times-more :
      (n : ℕ) (q r r' : LocalQueue A) (ys : List A) (x : A)
      → recv_times n q ≡ some (ys, r)
      → recv r ≡ some (x, r')
      → recv_times (suc n) q ≡ some (ys ++ x ∷ [], r')
  recv_times-more zero q r r' ys x p e =
      let same : q ≡ r = cc in let empty : [] ≡ ys = cc in rw (same, ← empty, recv_times, e) refl
  recv_times-more (suc n) q r r' ys x p e = elim (Option-cases (recv q)) [
    | inl f ↦ absurd (cc (rw (recv_times, f) at p))
    | inr ((y, rest), f) ↦ elim (Option-cases (recv_times n rest)) [
      | inl g ↦ absurd (cc (rw (recv_times, f, g) at p))
      | inr ((zs, r1), g) ↦
          let h : ◌≡◌ {A = Option (List A × LocalQueue A)} (some (y ∷ zs, r1)) (some (ys, r)) =
            rw (recv_times, f, g) at p in
          let last : r1 ≡ r = cc in
          let more = recv_times-more n rest r r' zs x (rw (← last) g) e in
          let items : y ∷ zs ≡ ys = cc in rw (recv_times, f, more, ← items) refl
    ]
  ]

  -- After any items were sent, as many calls of `recv` return them in the reverse order, and leave the
  -- queue as it was before.
  pub recv_times-send_all :
      (xs : List A) (q : LocalQueue A)
      → recv_times (length xs) (send_all q xs) ≡ some (reverse xs, q)
  recv_times-send_all [] q = refl
  recv_times-send_all (x ∷ xs) q =
      recv_times-more (length xs) (send_all (send q x) xs) (send q x) q (reverse xs) x
        (recv_times-send_all xs (send q x)) (recv-send q x)
      ∙ ap (λ l. some (l, q)) (sym (reverse-append (x ∷ []) xs))
