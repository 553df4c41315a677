-- ===== src/Runtime/Distributed.antt =====
-- The loop of `create_context_args` (runtime/mod.rs) that sorts the actors by their contexts.
use mathlib.Core.List.Memᴰ
use dytor.Common.{
  ℕ, zero, suc, ◌+◌, ◌%◌, ◌<◌, ◌≡◌, refl, arith, List, [], ◌∷◌, ◌++◌, Memᴰ, some, returns,
  >>=-eq-returns, get_elem?, length, u32_mod, subst,
}
use native.Mathlib.Nat.{mod-eq_of_lt}
use dytor.Context.{as_index, new}
use dytor.Graph.{ActorId}
use dytor.Config.{ActorConfig}
use dytor.Runtime.{id_of, push_at, distribute}

pub id_of-lt : (i : ℕ) → i + 1 < u32_mod → id_of i ≡ returns (i + 1)
unfolding id_of new
id_of-lt i h = let e : i % u32_mod ≡ i = mod-eq_of_lt (omega arith) in rw e (ground arith)

-- `x` is in the list that stands at index `j`.
abbrev pub IsIn : {A : Type 0} → ℕ → A → List (List A) → Type 0
IsIn j x [] = ⊥
IsIn zero x (g ∷ groups) = Memᴰ x g
IsIn (suc j) x (g ∷ groups) = IsIn j x groups

mem_last : {A : Type 0} (x : A) (xs : List A) → Memᴰ x (xs ++ x ∷ [])
mem_last x [] = Memᴰ.head refl
mem_last x (y ∷ xs) = Memᴰ.tail (mem_last x xs)

push_at-IsIn :
    {A : Type 0} (j : ℕ) (x : A) (gs gs' : List (List A))
    → push_at j x gs ≡ returns gs'
    → IsIn j x gs'
unfolding push_at
push_at-IsIn j x [] gs' h = absurd (cc)
push_at-IsIn zero x (g ∷ gs) gs' h =
    let e : (g ++ x ∷ []) ∷ gs ≡ gs' = cc in subst (IsIn 0 x) e (mem_last x g)
push_at-IsIn (suc j) x (g ∷ gs) gs' h =
    let (rest, p, q) = >>=-eq-returns (push_at j x gs) _ h in
    let e : g ∷ rest ≡ gs' = cc in subst (IsIn (suc j) x) e (push_at-IsIn j x gs rest p)

push_at-kept :
    {A : Type 0} (j : ℕ) (x : A) (gs gs' : List (List A)) (k : ℕ) (y : A)
    → push_at j x gs ≡ returns gs'
    → IsIn k y gs
    → IsIn k y gs'
unfolding push_at
push_at-kept j x [] gs' k y h m = absurd m
push_at-kept zero x (g ∷ gs) gs' zero y h m =
    let e : (g ++ x ∷ []) ∷ gs ≡ gs' = cc in subst (IsIn 0 y) e (Memᴰ.append_left (x ∷ []) m)
push_at-kept zero x (g ∷ gs) gs' (suc k) y h m =
    let e : (g ++ x ∷ []) ∷ gs ≡ gs' = cc in subst (IsIn (suc k) y) e m
push_at-kept (suc j) x (g ∷ gs) gs' zero y h m =
    let (rest, p, q) = >>=-eq-returns (push_at j x gs) _ h in
    let e : g ∷ rest ≡ gs' = cc in subst (IsIn 0 y) e m
push_at-kept (suc j) x (g ∷ gs) gs' (suc k) y h m =
    let (rest, p, q) = >>=-eq-returns (push_at j x gs) _ h in
    let e : g ∷ rest ≡ gs' = cc in subst (IsIn (suc k) y) e (push_at-kept j x gs rest k y p m)

push_at-length :
    {A : Type 0} (j : ℕ) (x : A) (gs gs' : List (List A))
    → push_at j x gs ≡ returns gs'
    → length gs' ≡ length gs
unfolding push_at
push_at-length j x [] gs' h = absurd (cc)
push_at-length zero x (g ∷ gs) gs' h = ground arith
push_at-length (suc j) x (g ∷ gs) gs' h =
    let (rest, p, q) = >>=-eq-returns (push_at j x gs) _ h in
    ground (arith, push_at-length j x gs rest p)

module _ {V : Type 0} where
  -- A round of the loop that does not panic.
  distribute-cons :
      (i : ℕ) (c : ActorConfig V) (actors : List (ActorConfig V))
      (gs gs' : List (List (ActorId × ActorConfig V)))
      → distribute i (c ∷ actors) gs ≡ returns gs'
      → (id : ActorId) × (mid : List (List (ActorId × ActorConfig V))) × (id_of i ≡ returns id)
        × (push_at (as_index c.context) (id, c) gs ≡ returns mid)
        × (distribute (suc i) actors mid ≡ returns gs')
  unfolding distribute
  distribute-cons i c actors gs gs' h =
      let (id, p, q) = >>=-eq-returns (id_of i) _ h in
      let (mid, r, s) = >>=-eq-returns (push_at (as_index c.context) (id, c) gs) _ q in
      (id, mid, p, r, s)

  distribute-nil :
      (i : ℕ) (gs gs' : List (List (ActorId × ActorConfig V)))
      → distribute i [] gs ≡ returns gs'
      → gs ≡ gs'
  unfolding distribute
  distribute-nil i gs gs' h = cc

  pub distribute-length :
      (i : ℕ) (actors : List (ActorConfig V)) (gs gs' : List (List (ActorId × ActorConfig V)))
      → distribute i actors gs ≡ returns gs'
      → length gs' ≡ length gs
  distribute-length i [] gs gs' h = rw (distribute-nil i gs gs' h) refl
  distribute-length i (c ∷ actors) gs gs' h =
      let (id, mid, p, q, r) = distribute-cons i c actors gs gs' h in
      omega (
        arith,
        distribute-length (suc i) actors mid gs' r,
        push_at-length (as_index c.context) (id, c) gs mid q,
      )

  distribute-kept :
      (i : ℕ) (actors : List (ActorConfig V)) (gs gs' : List (List (ActorId × ActorConfig V)))
      (k : ℕ) (y : ActorId × ActorConfig V)
      → distribute i actors gs ≡ returns gs'
      → IsIn k y gs
      → IsIn k y gs'
  distribute-kept i [] gs gs' k y h m = subst (IsIn k y) (distribute-nil i gs gs' h) m
  distribute-kept i (c ∷ actors) gs gs' k y h m =
      let (id, mid, p, q, r) = distribute-cons i c actors gs gs' h in
      distribute-kept (suc i) actors mid gs' k y r
        (push_at-kept (as_index c.context) (id, c) gs mid k y q m)

  -- The actor of index `k` gets an id by its index, and is among those of its context.
  pub distribute-IsIn :
      (i : ℕ) (actors : List (ActorConfig V)) (gs gs' : List (List (ActorId × ActorConfig V)))
      (k : ℕ) (c : ActorConfig V)
      → distribute i actors gs ≡ returns gs'
      → get_elem? actors k ≡ some c
      → i + length actors < u32_mod
      → IsIn (as_index c.context) (i + k + 1, c) gs'
  distribute-IsIn i [] gs gs' k c h at few = absurd (cc)
  distribute-IsIn i (b ∷ actors) gs gs' zero c h at few =
      let (id, mid, p, q, r) = distribute-cons i b actors gs gs' h in
      let same : b ≡ c = cc in
      let named : id ≡ i + 1 = cc (id_of-lt i (omega arith)) in
      let start : i + 0 + 1 ≡ i + 1 = omega arith in
      distribute-kept (suc i) actors mid gs' (as_index c.context) (i + 0 + 1, c) r
        (rw (start, ← named, ← same) (push_at-IsIn (as_index b.context) (id, b) gs mid q))
  distribute-IsIn i (b ∷ actors) gs gs' (suc k) c h at few =
      let (id, mid, p, q, r) = distribute-cons i b actors gs gs' h in
      let next : i + suc k + 1 ≡ suc i + k + 1 = omega arith in
      rw next (distribute-IsIn (suc i) actors mid gs' k c r at (omega arith))
