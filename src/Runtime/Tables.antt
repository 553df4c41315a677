-- ===== src/Runtime/Tables.antt =====
-- The tables in the tree of actors (runtime/mod.rs) are those that the registry has for the names of
-- the configuration.
use Prim.Native.String.{String}
use mathlib.Core.List.Memᴰ
use dytor.Common.{
  ℕ, suc, ◌≡◌, refl, sym, ap, ◌∙◌, subst, List, [], ◌∷◌, Memᴰ, some, returns, assert,
  >>=-eq-returns, length, inl, inr, ◌==◌,
}
use dytor.Arena.{Arena, Offset, from_layouts}
use dytor.Graph.{ActorId}
use dytor.Registry.{TypeId, VTable, Registry, by_name}
use dytor.Lookup.{ActorData}
use dytor.Config.{ActorConfig}
use dytor.Runtime.{
  ActorConstructorInfo, look_up, look_up_all, layouts, place, allocate_actors, Made, make_args,
}
use dytor.Runtime.Homes.{mem-in_context}
use dytor.Runtime.Arguments.{look_up_lem, make_args-cons, make_args-nil}

-- The registry has the table under a name.
abbrev pub IsTable : Registry → VTable → Type 0
IsTable r v = (name : String) × (t : TypeId) × (by_name r name ≡ some (t, v))

module _ {V : Type 0} (r : Registry) where
  look_up_all-IsTable :
      (configs : List (ActorId × ActorConfig V)) (infos : List (ActorConstructorInfo V))
      (a : ActorConstructorInfo V)
      → look_up_all r configs ≡ returns infos
      → Memᴰ a infos
      → IsTable r a.vtable
  unfolding look_up_all
  look_up_all-IsTable [] infos a h m =
      let none_found : infos ≡ [] = cc in absurd (Memᴰ.not-nil (subst (Memᴰ a) none_found m))
  look_up_all-IsTable (c ∷ configs) infos a h m =
      let (info, p, q) = >>=-eq-returns (look_up r c) _ h in
      let (rest, s, u) = >>=-eq-returns (look_up_all r configs) _ q in
      let same : infos ≡ info ∷ rest = cc in
      elim (Memᴰ.cases_cons (subst (Memᴰ a) same m)) [
        | inl e ↦
            let (t, v, b, i, j) = look_up_lem r c info p in
            (
              c.1.typename,
              t,
              subst (λ w. by_name r c.1.typename ≡ some (t, w)) (sym j ∙ ap (λ x. x.vtable) (sym e))
                  b,
            )
        | inr later ↦ look_up_all-IsTable configs rest a s later
      ]

  place-vtable :
      (infos : List (ActorConstructorInfo V)) (os : List Offset) (a : ActorConstructorInfo V)
      → Memᴰ a (place infos os)
      → (b : ActorConstructorInfo V) × Memᴰ b infos × (b.vtable ≡ a.vtable)
  unfolding place
  place-vtable (info ∷ infos) (o ∷ os) a m = elim (Memᴰ.cases_cons m) [
    | inl e ↦ (info, Memᴰ.head refl, ap (λ x. x.vtable) (sym e))
    | inr later ↦ let (b, k, e) = place-vtable infos os a later in (b, Memᴰ.tail k, e)
  ]
  place-vtable (info ∷ infos) [] a m = (a, m, refl)
  place-vtable [] [] a m = (a, m, refl)
  place-vtable [] (o ∷ os) a m = absurd (Memᴰ.not-nil m)

  allocate_actors-IsTable :
      (alloc : ℕ → ℕ) (configs : List (ActorId × ActorConfig V))
      (x : Arena × List (ActorConstructorInfo V)) (a : ActorConstructorInfo V)
      → allocate_actors r alloc configs ≡ returns x
      → Memᴰ a x.1
      → IsTable r a.vtable
  unfolding allocate_actors
  allocate_actors-IsTable alloc configs x a h m =
      let (infos, p, q) = >>=-eq-returns (look_up_all r configs) _ h in
      let (made, s, u) = >>=-eq-returns (from_layouts alloc (layouts infos)) _ q in
      let (_, _, w) = >>=-eq-returns (assert (length made.1 == length infos)) _ u in
      let e : ◌≡◌ {A = Arena × List (ActorConstructorInfo V)} x (made.0, place infos made.1) = cc in
      let (b, k, same) = place-vtable infos made.1 a (subst (λ y. Memᴰ a y.1) e m) in
      subst (IsTable r) same (look_up_all-IsTable configs infos b p k)

  -- Every table that the loop over the contexts puts into the tree is one of the registry.
  pub make_args-IsTable :
      (alloc : ℕ → ℕ → ℕ) (n i : ℕ) (groups : List (List (ActorId × ActorConfig V)))
      (made made' : Made V) (e : ActorData)
      → make_args r alloc n i groups made ≡ returns made'
      → ((d : ActorData) → Memᴰ d made.tree → IsTable r d.vtable)
      → Memᴰ e made'.tree
      → IsTable r e.vtable
  make_args-IsTable alloc n i [] made made' e h before m =
      before e (subst (λ x. Memᴰ e x.tree) (sym (make_args-nil r alloc n i made made' h)) m)
  make_args-IsTable alloc n i (g ∷ groups) made made' e h before m =
      let (id, x, next, p, q, t, b, s, _) = make_args-cons r alloc n i g groups made made' h in
      make_args-IsTable alloc n (suc i) groups next made' e s
        (λ d k. elim (Memᴰ.append_cases made.tree (subst (Memᴰ d) t k)) [
          | inl old ↦ before d old
          | inr new ↦
              let (_, (a, ka, _, same, _)) = mem-in_context id x.1 d new in
              subst (IsTable r) same (allocate_actors-IsTable (alloc i) g x a q ka)
        ])
        m
