-- ===== src/Runtime/Objects.antt =====
-- The objects of a context (runtime/mod.rs, object/): where they stand once all are constructed, and
-- what becomes of them when the context is dropped.
use native.Mathlib.Nat.{mod-eq_of_lt}
use dytor.Common.{
  ℕ, ◌+◌, ◌<◌, ◌≤◌, ◌≡◌, refl, sym, ap, ◌∙◌, subst, arith, Bool, false, ◌||◌, List, [], ◌∷◌, Option,
  none, some, Exec, returns, assert, unwrap, >>=-eq-returns, ◌==◌, usize_mod,
}
use dytor.Common.Dict.{Dict}
use dytor.Arena.{Arena, Offset, Layout, wrapping_add, align_offset, at_offset}
use dytor.Arena.Fits.{Packed}
use dytor.Registry.{TypeId, VTable, layout}
use dytor.Object.{Object, Memory, within, written, write, construct}
use dytor.Runtime.{ActorConstructorInfo, layouts}
use dytor.Runtime.Placed.{offsets}
use dytor.Runtime.Create.{InitData, InitStage, construct_all}

-- All bytes of the range are those of the object.
abbrev pub Holds : Memory → ℕ → ℕ → Object → Type 0
Holds m p size o = (k : ℕ) → k < size → m (p + k) ≡ some o

-- The object of an actor.
abbrev pub object_of : {V : Type 0} → ActorConstructorInfo V → Object
object_of a = record { actor = a.id; type_id = a.vtable.type_id }

-- Each actor's object stands at its offset.
abbrev pub AllHold : {V : Type 0} → ℕ → List (ActorConstructorInfo V) → Memory → Type 0
AllHold base [] m = Unit {0}
AllHold base (a ∷ actors) m =
    Holds m (base + a.offset) a.vtable.size (object_of a) × AllHold base actors m

-- The memories agree on the addresses below.
abbrev pub SameBelow : ℕ → Memory → Memory → Type 0
SameBelow top m m' = (a : ℕ) → a < top → m' a ≡ m a

write-Holds : (m : Memory) (p size : ℕ) (o : Object) → Holds (write m p size o) p size o
unfolding write
write-Holds m p size o k h = ground arith

write_out :
    (m : Memory) (p size : ℕ) (o : Object) (x : ℕ)
    → within p size x ≡ false
    → write m p size o x ≡ m x
unfolding write
write_out m p size o x h = rw h refl

write-SameBelow :
    (m : Memory) (p size : ℕ) (o : Object) (top : ℕ) → top ≤ p → SameBelow top m (write m p size o)
unfolding write
write-SameBelow m p size o top h a lt = ground arith

pub at_offset-returns :
    (a : Arena) (o : Offset) (l : Layout) (buf : ℕ × ℕ)
    → a.base + a.capacity < usize_mod
    → o ≤ a.capacity
    → at_offset a o l ≡ returns buf
    → buf ≡ (a.base + o, l.size)
unfolding at_offset
at_offset-returns a o l buf room inside h =
    let ptr : wrapping_add a.base o ≡ a.base + o = mod-eq_of_lt (omega arith) in ground arith

pub Packed-le :
    (base capacity from : ℕ) (ls : List Layout) (os : List Offset)
    → Packed base capacity from ls os
    → from ≤ capacity
Packed-le base capacity from [] [] p = p
Packed-le base capacity from (l ∷ ls) (o ∷ os) p =
    omega (arith, p.0, Packed-le base capacity (o + l.size) ls os p.2)
Packed-le base capacity from [] (o ∷ os) p = absurd p
Packed-le base capacity from (l ∷ ls) [] p = absurd p

construct-writes :
    {D S : Type 0} (f : D → S → Exec (Option S)) (v : VTable) (id : ℕ) (dest : ℕ × ℕ) (config : D)
    (s s' : S) (m m' : Memory)
    → construct f v id dest config (s, m) ≡ returns (some (s', m'))
    → m' ≡ write m dest.0 v.size (record { actor = id; type_id = v.type_id })
unfolding construct
construct-writes f v id dest config s s' m m' h =
    let (_, _, h1) = >>=-eq-returns (assert (dest.1 == v.size)) _ h in
    let (_, _, h2) = >>=-eq-returns (assert (align_offset dest.0 v.align == 0)) _ h1 in
    let (res, _, h3) = >>=-eq-returns (f config s) _ h2 in
    written-some (write m dest.0 v.size (record { actor = id; type_id = v.type_id })) res s' m'
      (ground arith)
  where
    written-some :
        {S : Type 0} (n : Memory) (res : Option S) (t : S) (m' : Memory)
        → written n res ≡ some (t, m')
        → m' ≡ n
    written-some n none t m' e = absurd (cc)
    written-some n (some x) t m' e = cc

-- The address is one of the object of an actor.
abbrev pub in_any : {V : Type 0} → ℕ → List (ActorConstructorInfo V) → ℕ → Bool
in_any base [] x = false
in_any base (a ∷ actors) x = within (base + a.offset) a.vtable.size x || in_any base actors x

module _ {V D M : Type 0} (deserialize : VTable → V → Option D)
    (initialise : VTable → InitStage → D → InitData M → Exec (Option (InitData M))) (arena : Arena)
    (resources : Dict TypeId ℕ) (room : arena.base + arena.capacity < usize_mod) where
  -- A round of the loop that does not panic.
  construct_all-cons :
      (a : ActorConstructorInfo V) (actors : List (ActorConstructorInfo V))
      (init init' : InitData M) (m m' : Memory)
      → a.offset ≤ arena.capacity
      → construct_all deserialize initialise arena resources (a ∷ actors) (init, m)
        ≡ returns (init', m')
      → (next : InitData M) × (construct_all deserialize initialise arena resources actors
            (next, write m (arena.base + a.offset) a.vtable.size (object_of a))
          ≡ returns (init', m'))
  unfolding construct_all layout
  construct_all-cons a actors init init' m m' inside h =
      let (cfg, _, h1) = >>=-eq-returns (unwrap (deserialize a.vtable a.cfg.config)) _ h in
      let (buf, b, h2) = >>=-eq-returns (at_offset arena a.offset (layout a.vtable)) _ h1 in
      let (res, r, h3) =
        >>=-eq-returns (construct (initialise a.vtable _) a.vtable a.id buf cfg (init, m)) _ h2 in
      let ((next, m1), u, h4) = >>=-eq-returns (unwrap res) _ h3 in
      let place = at_offset-returns arena a.offset (layout a.vtable) buf room inside b in
      let made : res ≡ some (next, m1) = ground arith in
      let w =
        construct-writes (initialise a.vtable _) a.vtable a.id buf cfg init next m m1
          (rw made at r) in
      (
        next,
        subst
            (λ x.
              construct_all deserialize initialise arena resources actors (next, x)
              ≡ returns (init', m'))
            (w ∙ ap (λ (b : ℕ × ℕ). write m b.0 a.vtable.size (object_of a)) place) h4,
      )

  construct_all-nil :
      (init init' : InitData M) (m m' : Memory)
      → construct_all deserialize initialise arena resources [] (init, m) ≡ returns (init', m')
      → m ≡ m'
  unfolding construct_all
  construct_all-nil init init' m m' h = ground arith

  -- What the loop leaves in memory, behind the objects that stood there.
  pub construct_all-AllHold :
      (actors : List (ActorConstructorInfo V)) (from : ℕ) (init init' : InitData M) (m m' : Memory)
      → Packed arena.base arena.capacity from (layouts actors) (offsets actors)
      → construct_all deserialize initialise arena resources actors (init, m) ≡ returns (init', m')
      → AllHold arena.base actors m'
        × SameBelow (arena.base + from) m m'
        × ((x : ℕ) → in_any arena.base actors x ≡ false → m' x ≡ m x)
  unfolding layout
  construct_all-AllHold [] from init init' m m' p h =
      let e = construct_all-nil init init' m m' h in
      (tt, λ a lt. ap (λ f. f a) (sym e), λ x u. ap (λ f. f x) (sym e))
  construct_all-AllHold (a ∷ actors) from init init' m m' (above, aligned, p) h =
      let inside = Packed-le arena.base arena.capacity _ (layouts actors) (offsets actors) p in
      let (next, h') = construct_all-cons a actors init init' m m' (omega arith) h in
      let m1 = write m (arena.base + a.offset) a.vtable.size (object_of a) in
      let (all, same, rest) = construct_all-AllHold actors _ next init' m1 m' p h' in
      (
        (
          λ k lt.
              same (arena.base + a.offset + k) (omega arith)
              ∙ write-Holds m (arena.base + a.offset) a.vtable.size (object_of a) k lt,
          all,
        ),
        λ x lt.
            same x (omega arith)
            ∙ write-SameBelow m (arena.base + a.offset) a.vtable.size (object_of a) _ (omega arith)
                x lt,
        λ x u.
            rest x (ground arith)
            ∙ write_out m (arena.base + a.offset) a.vtable.size (object_of a) x (ground arith),
      )
