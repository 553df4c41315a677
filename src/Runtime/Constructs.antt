-- ===== src/Runtime/Constructs.antt =====
-- The loop of `create_context` (runtime/mod.rs) over the actors: when it returns.
use dytor.Common.{
  ℕ, ◌+◌, ◌<◌, ◌≡◌, ◌↔◌, refl, ap, ◌∙◌, arith, List, [], ◌∷◌, Option, some, Exec, returns, unwrap,
  All, usize_mod, ==_refl, >>=-eq-returns,
}
use dytor.Common.Dict.{Dict}
use dytor.Arena.{Arena, IsLayout, align_offset, at_offset}
use dytor.Arena.Padding.{IsPow2-pos, align_offset-aligned}
use dytor.Arena.Fits.{Packed}
use dytor.Arena.Access.{at_offset_iff}
use dytor.Registry.{TypeId, VTable, layout}
use dytor.Object.{Memory, write, construct}
use dytor.Runtime.{ActorConstructorInfo, layouts}
use dytor.Runtime.Placed.{offsets}
use dytor.Runtime.Create.{InitData, InitStage, construct_all}
use dytor.Runtime.Objects.{at_offset-returns, object_of, Packed-le}

-- Every object ends before the arena does.
abbrev pub EndBefore : {V : Type 0} → ℕ → List (ActorConstructorInfo V) → Type 0
EndBefore capacity [] = Unit
EndBefore capacity (a ∷ actors) =
    (a.offset + (layout a.vtable).size < capacity) × EndBefore capacity actors

construct-returns :
    {D S : Type 0} (f : D → S → Exec (Option S)) (v : VTable) (id ptr : ℕ) (config : D) (s s' : S)
    (m : Memory)
    → align_offset ptr v.align ≡ 0
    → f config s ≡ returns (some s')
    → construct f v id (ptr, v.size) config (s, m)
      ≡ returns (some (s', write m ptr v.size (record { actor = id; type_id = v.type_id })))
unfolding construct
construct-returns f v id ptr config s s' m aligned e = rw (==_refl v.size, aligned, e) refl

module _ {V D M : Type 0} (deserialize : VTable → V → Option D)
    (initialise : VTable → InitStage → D → InitData M → Exec (Option (InitData M))) (arena : Arena)
    (resources : Dict TypeId ℕ) (room : arena.base + arena.capacity < usize_mod)
    (read : (v : VTable) (c : V) → (d : D) × (deserialize v c ≡ some d))
    (inits : (v : VTable) (stage : InitStage) (d : D) (init : InitData M)
      → (init' : InitData M) × (initialise v stage d init ≡ returns (some init'))) where
  construct_all-EndBefore :
      (actors : List (ActorConstructorInfo V)) (from : ℕ) (init : InitData M) (m : Memory)
      (x : InitData M × Memory)
      → Packed arena.base arena.capacity from (layouts actors) (offsets actors)
      → All IsLayout (layouts actors)
      → construct_all deserialize initialise arena resources actors (init, m) ≡ returns x
      → EndBefore arena.capacity actors
  unfolding construct_all
  construct_all-EndBefore [] from init m x p w h = tt
  construct_all-EndBefore (a ∷ actors) from init m x (before, aligned, p) (valid, w) h =
      let inside =
        Packed-le arena.base arena.capacity (a.offset + (layout a.vtable).size) (layouts actors)
          (offsets actors) p in
      let (cfg, _, h1) = >>=-eq-returns (unwrap (deserialize a.vtable a.cfg.config)) _ h in
      let (buf, b, h2) = >>=-eq-returns (at_offset arena a.offset (layout a.vtable)) _ h1 in
      let (res, _, h3) =
        >>=-eq-returns (construct (initialise a.vtable _) a.vtable a.id buf cfg (init, m)) _ h2 in
      let ((next, m1), _, h4) = >>=-eq-returns (unwrap res) _ h3 in
      let place = at_offset-returns arena a.offset (layout a.vtable) buf room (omega arith) b in
      (
        (at_offset_iff arena a.offset (layout a.vtable) valid aligned inside room).0
            (b ∙ ap returns place),
        construct_all-EndBefore actors (a.offset + (layout a.vtable).size) next m1 x p w h4,
      )

  construct_all-runs :
      (actors : List (ActorConstructorInfo V)) (from : ℕ) (init : InitData M) (m : Memory)
      → Packed arena.base arena.capacity from (layouts actors) (offsets actors)
      → All IsLayout (layouts actors)
      → EndBefore arena.capacity actors
      → (x : InitData M × Memory) × (construct_all deserialize initialise arena resources actors
            (init, m)
          ≡ returns x)
  unfolding construct_all layout
  construct_all-runs [] from init m p w ends = ((init, m), refl)
  construct_all-runs (a ∷ actors) from init m (before, aligned, p) (valid, w) (fits, ends) =
      let v = a.vtable in
      let stage : InitStage = record {
        actor_being_constructed = a.id;
        actor_offset = a.offset;
        resources = resources;
      } in
      let (cfg, e) = read v a.cfg.config in
      let (next, f) = inits v stage cfg init in
      let inside =
        Packed-le arena.base arena.capacity (a.offset + (layout a.vtable).size) (layouts actors)
          (offsets actors) p in
      let at = (at_offset_iff arena a.offset (layout v) valid aligned inside room).1 fits in
      let made =
        construct-returns (initialise v stage) v a.id (arena.base + a.offset) cfg init next m
          (align_offset-aligned (arena.base + a.offset) v.align (IsPow2-pos v.align valid) aligned)
          f in
      let (x, rest) =
        construct_all-runs actors (a.offset + (layout a.vtable).size) next
          (write m (arena.base + a.offset) v.size (object_of a)) p w ends in
      (x, rw (e, at, made) rest)

  -- Let the actors have valid layouts and be placed as `allocate_actors` does, in an arena within the address space, and let
  -- every configuration be read and every `init` succeed. Then the loop of `create_context` returns
  -- exactly when each object ends before the arena does, and otherwise panics.
  pub construct_all_iff :
      (actors : List (ActorConstructorInfo V)) (init : InitData M) (m : Memory)
      → Packed arena.base arena.capacity 0 (layouts actors) (offsets actors)
      → All IsLayout (layouts actors)
      → ((x : InitData M × Memory) × (construct_all deserialize initialise arena resources actors
              (init, m)
            ≡ returns x))
        ↔ EndBefore arena.capacity actors
  construct_all_iff actors init m p w = (
    λ r. construct_all-EndBefore actors 0 init m r.0 p w r.1,
    λ ends. construct_all-runs actors 0 init m p w ends,
  )
