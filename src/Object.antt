-- ===== src/Object.antt =====
-- crates/core/dytor/src/object: the functions that a table holds for its actor type. Memory is a
-- function from addresses to the object whose bytes stand there; an object is the actor that it is
-- and its type. The values of the actors' fields are not part of it.
use dytor.Common.{
  ℕ, zero, suc, ◌+◌, Bool, true, false, ◌&&◌, Option, none, some, Exec, returns, ◌>>=◌, ◌>>◌,
  assert, ltb, leb, ◌==◌, if◌then◌else◌,
}
use dytor.Arena.{align_offset}
use dytor.Graph.{ActorId}
use dytor.Registry.{TypeId, VTable}

pub record Object : Type 0 where
  pub actor : ActorId
  pub type_id : TypeId

abbrev pub Memory : Type 0
Memory = ℕ → Option Object

-- Memory that nothing was written to yet.
abbrev pub uninit : Memory
uninit _ = none

abbrev pub within : ℕ → ℕ → ℕ → Bool
within p size a = leb p a && ltb a (p + size)

-- `MaybeUninit::write`: the bytes of the object are written.
unfoldable pub write : Memory → ℕ → ℕ → Object → Memory
write m p size o a = if within p size a then some o else m a

-- `drop_in_place`, after which the bytes hold nothing.
unfoldable pub erase : Memory → ℕ → ℕ → Memory
erase m p size a = if within p size a then none else m a

-- Whether the bytes at an address are those of objects of the type.
unfoldable pub holds_type : Memory → ℕ → ℕ → TypeId → Bool
holds_type m p zero t = true
holds_type m p (suc size) t =
    (elim (m p) [ none ↦ false | some o ↦ o.type_id == t ]) && holds_type m (suc p) size t

-- `let res = …?`, and then the write.
abbrev pub written : {S : Type 0} → Memory → Option S → Option (S × Memory)
written m none = none
written m (some args) = some (args, m)

-- The constructor of `create_vtable`, over `T::init`, the actor's own code, which may fail. The
-- configuration has the type that the same table deserialized, so that its downcast succeeds.
unfoldable pub construct :
    {D S : Type 0}
    → (D → S → Exec (Option S))
    → VTable
    → ActorId
    → ℕ × ℕ
    → D
    → S × Memory
    → Exec (Option (S × Memory))
unfolding write
construct initialise v id dest config (args, m) = do
  assert (dest.1 == v.size)
  assert (align_offset dest.0 v.align == 0)
  res ← initialise config args
  returns (written (write m dest.0 v.size (record { actor = id; type_id = v.type_id })) res)

-- `VTable::drop`. To drop what is not an object of the type is undefined behaviour; here it panics.
unfoldable pub drop : VTable → ℕ → Memory → Exec Memory
unfolding erase holds_type
drop v ptr m = do
  assert (align_offset ptr v.align == 0)
  assert (holds_type m ptr v.size v.type_id)
  returns (erase m ptr v.size)
