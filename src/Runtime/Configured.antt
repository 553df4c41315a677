-- ===== src/Runtime/Configured.antt =====
-- Configurations (config.rs) for which `create_context_args` (runtime/mod.rs) has all that it needs: the
-- actors by context.
use mathlib.Core.List.Memᴰ
use dytor.Common.{
  ℕ, zero, suc, ◌+◌, ◌*◌, ◌<◌, ◌≤◌, ◌≡◌, refl, sym, ap, subst, inl, inr, Memᴰ, arith, List, [], ◌∷◌,
  ◌++◌, length, length-append, some, returns, All, u32_mod, usize_mod,
}
use native.Mathlib.Nat.{suc-mul, mul-le-mul_right}
use dytor.Arena.{Arena, IsLayout}
use dytor.Arena.Required.{least_space, most_space, compute_space_required-bounds}
use dytor.Context.{as_index}
use dytor.Graph.{ActorId}
use dytor.Registry.{TypeId, VTable, layout, Registry, by_name}
use dytor.Config.{ActorConfig}
use dytor.Runtime.{ActorConstructorInfo, push_at, distribute, layouts, allocate_actors}
use dytor.Runtime.Distributed.{id_of-lt}
use dytor.Runtime.Placed.{IsFound, none_found, one_found, allocate_actors-Packed}
use dytor.Runtime.Homes.{compute_space_required-lt}

-- The allocator returns blocks within the address space, for the sizes that an arena can have, 0
-- included.
abbrev pub Answers : (ℕ → ℕ) → Type 0
Answers alloc = (size : ℕ) → size < u32_mod → (0 < alloc size) × (alloc size + size < usize_mod)

-- The same, for sizes from `least` on.
abbrev pub Allocates : ℕ → (ℕ → ℕ) → Type 0
Allocates least alloc =
    (size : ℕ) → least ≤ size → size < u32_mod → (0 < alloc size) × (alloc size + size < usize_mod)

sum_nil : (m : ℕ) → m ≡ m + 0
sum_nil m = omega arith

sum_suc : (m k : ℕ) → suc m + k ≡ m + suc k
sum_suc m k = omega arith

module _ {V : Type 0} (r : Registry) where
  -- The sizes of the actors are at least `least` in all.
  abbrev pub IsOccupied : ℕ → List (ActorId × ActorConfig V) → Type 0
  IsOccupied least g =
      (infos : List (ActorConstructorInfo V))
      → IsFound r g infos
      → least ≤ least_space (layouts infos)

  -- The actor has a size that is not 0.
  abbrev pub HasSize : ActorConfig V → Type 0
  HasSize c = (t : TypeId) × (v : VTable) × (by_name r c.typename ≡ some (t, v)) × (0 < v.size)

  pub HasSize-IsOccupied :
      (x : ActorId × ActorConfig V) (g : List (ActorId × ActorConfig V))
      → HasSize x.1
      → Memᴰ x g
      → IsOccupied 1 g
  unfolding layout
  HasSize-IsOccupied x g h m infos none_found = absurd (Memᴰ.not-nil m)
  HasSize-IsOccupied x g (t, v, e, pos) m infos
        (one_found {t = t'} {v = v'} {configs = configs} {infos = infos'} e' found) =
      elim (Memᴰ.cases_cons m) [
        | inl same ↦
            let by : by_name r x.1.typename ≡ some (t', v') =
              subst (λ (y : ActorId × ActorConfig V). by_name r y.1.typename ≡ some (t', v'))
                (sym same) e' in
            let sized : v ≡ v' = cc in ground (arith, sized)
        | inr later ↦ omega (arith, HasSize-IsOccupied x configs (t, v, e, pos) later infos' found)
      ]

module _ {V : Type 0} (r : Registry) (n bytes widest : ℕ) where
  -- The actor's type is known, with a valid layout within the bounds, and its context is one of `n`.
  abbrev pub IsConfigured : ActorConfig V → Type 0
  IsConfigured c =
      (t : TypeId) × (v : VTable) × (by_name r c.typename ≡ some (t, v))
      × IsLayout (layout v)
      × ((layout v).size + (layout v).align ≤ bytes)
      × ((layout v).align ≤ widest)
      × (1 ≤ c.context)
      × (c.context ≤ n)

  abbrev pub AreConfigured : List (ActorId × ActorConfig V) → Type 0
  AreConfigured g = All (λ x. IsConfigured x.1) g

  -- Groups of at most `m` actors each.
  abbrev pub AreGroups : ℕ → List (List (ActorId × ActorConfig V)) → Type 0
  AreGroups m gs = All (λ g. AreConfigured g × (length g ≤ m)) gs

  AreConfigured-snoc :
      (g : List (ActorId × ActorConfig V)) (x : ActorId × ActorConfig V)
      → AreConfigured g
      → IsConfigured x.1
      → AreConfigured (g ++ x ∷ [])
  AreConfigured-snoc [] x all h = (h, tt)
  AreConfigured-snoc (y ∷ g) x all h = (all.0, AreConfigured-snoc g x all.1 h)

  AreGroups-suc :
      (m : ℕ) (gs : List (List (ActorId × ActorConfig V))) → AreGroups m gs → AreGroups (suc m) gs
  AreGroups-suc m [] all = tt
  AreGroups-suc m (g ∷ gs) ((all, few), rest) = ((all, omega arith), AreGroups-suc m gs rest)

  push_at-AreGroups :
      (j m : ℕ) (x : ActorId × ActorConfig V) (gs : List (List (ActorId × ActorConfig V)))
      → j < length gs
      → IsConfigured x.1
      → AreGroups m gs
      → (gs' : List (List (ActorId × ActorConfig V))) × (push_at j x gs ≡ returns gs')
        × AreGroups (suc m) gs'
        × (length gs' ≡ length gs)
  unfolding push_at
  push_at-AreGroups j m x [] lt h all = absurd (omega arith)
  push_at-AreGroups zero m x (g ∷ gs) lt h ((all, few), rest) = (
    (g ++ x ∷ []) ∷ gs,
    refl,
    (
      (AreConfigured-snoc g x all h, omega (arith, length-append g (x ∷ []))),
      AreGroups-suc m gs rest,
    ),
    refl,
  )
  push_at-AreGroups (suc j) m x (g ∷ gs) lt h ((all, few), rest) =
      let (gs', e, ok, same) = push_at-AreGroups j m x gs (omega arith) h rest in
      (g ∷ gs', rw e refl, ((all, omega arith), ok), ap suc same)

  pub distribute-AreGroups :
      (i m : ℕ) (actors : List (ActorConfig V)) (gs : List (List (ActorId × ActorConfig V)))
      → i + length actors < u32_mod
      → All IsConfigured actors
      → n ≤ length gs
      → AreGroups m gs
      → (gs' : List (List (ActorId × ActorConfig V))) × (distribute i actors gs ≡ returns gs')
        × AreGroups (m + length actors) gs'
  unfolding distribute
  distribute-AreGroups i m [] gs few cs there all =
      (gs, refl, subst (λ k. AreGroups k gs) (sum_nil m) all)
  distribute-AreGroups i m (c ∷ actors) gs few (h, cs) there all =
      let (_, _, _, _, _, _, one, most) = h in
      let (mid, p, ok, same) =
        push_at-AreGroups (as_index c.context) m (i + 1, c) gs (omega arith) h all in
      let (gs', q, last) =
        distribute-AreGroups (suc i) (suc m) actors mid (omega arith) cs (omega arith) ok in
      (
        gs',
        rw (id_of-lt i (omega arith), p) q,
        subst (λ k. AreGroups k gs') (sum_suc m (length actors)) last,
      )

  -- What the actors of a context are found to be.
  pub AreConfigured-IsFound :
      (g : List (ActorId × ActorConfig V))
      → AreConfigured g
      → (infos : List (ActorConstructorInfo V)) × IsFound r g infos
        × All IsLayout (layouts infos)
        × All (λ l. l.align ≤ widest) (layouts infos)
        × (most_space (layouts infos) ≤ length g * bytes)
  AreConfigured-IsFound [] all = ([], none_found, tt, tt, omega arith)
  AreConfigured-IsFound ((id, c) ∷ g) ((t, v, e, valid, small, narrow, _, _), all) =
      let (infos, found, layouts_valid, aligned, room) = AreConfigured-IsFound g all in
      (
        record { id = id; offset = 0; vtable = v; cfg = c } ∷ infos,
        one_found e found,
        (valid, layouts_valid),
        (narrow, aligned),
        omega (arith, suc-mul (length g) bytes),
      )

  pub allocate_actors-returns :
      (alloc : ℕ → ℕ) (least m : ℕ) (g : List (ActorId × ActorConfig V))
      → Allocates least alloc
      → IsOccupied r least g
      → 1 ≤ widest
      → m * bytes + 2 * widest < u32_mod
      → length g ≤ m
      → AreConfigured g
      → (x : Arena × List (ActorConstructorInfo V)) × (allocate_actors r alloc g ≡ returns x)
  allocate_actors-returns alloc least m g answers occupied one small few all =
      let (infos, found, valid, aligned, room) = AreConfigured-IsFound g all in
      let most : length g * bytes ≤ m * bytes = mul-le-mul_right bytes few in
      let (capacity, e, large, _) =
        compute_space_required-bounds (layouts infos) widest valid aligned one (omega arith) in
      let (pos, fits) =
        answers capacity (omega (arith, large, occupied infos found))
          (compute_space_required-lt (layouts infos) capacity e) in
      let (os, q, _, _) = allocate_actors-Packed r alloc capacity g infos found valid e pos fits in
      (_, q)
