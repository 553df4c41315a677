-- ===== src/Replay/Boxes.antt =====
-- crates/examples/replay/src/producer.rs and `UntypedBox` (lib.rs): the boxes of the events on their
-- way from a producer's stream, over the synchronizer, back to the producer. A type is named by a
-- number and `Item` gives its values; an address is a number. A stream is the events that it yields.
-- Boxes of a type without bytes, which need no memory and share an address, are told apart too.
use dytor.Common.{ℕ, Option, none, some, Exec, returns, panics, ◌>>=◌, subst, ℕ_discrete, update}
use dytor.Replay.{Event}

-- `UntypedBox`, the address of a box without the type of its value.
abbrev pub UntypedBox : Type 0
UntypedBox = ℕ

module _ (Item : ℕ → Type 0) where
  -- A box that was allocated and not yet freed, with the type that it was allocated for.
  pub record Boxed : Type 0 where
    pub item_type : ℕ
    pub value : Item item_type

  abbrev pub Boxes : Type 0
  Boxes = UntypedBox → Option Boxed

  -- The value of a box, read at a type: at another one the access is undefined behaviour.
  abbrev pub read_as : (τ : ℕ) → Option Boxed → Exec (Item τ)
  read_as τ none = panics
  read_as τ (some b) = elim (ℕ_discrete b.item_type τ) [
    | yes e ↦ returns (subst Item e b.value)
    | no _ ↦ panics
  ]

  -- `*Box::from_raw(obj as *mut T::Item)`: the value is moved out and the box freed.
  unfoldable pub from_raw : (τ : ℕ) → Boxes → UntypedBox → Exec (Item τ × Boxes)
  from_raw τ boxes a = read_as τ (boxes a) >>= λ v. returns (v, update boxes a none)

  -- The closure of `create_stream`, over the address that `Box::new` returns.
  unfoldable pub leak_event :
      (τ : ℕ) → Boxes → UntypedBox → Event (Item τ) → Event UntypedBox × Boxes
  leak_event τ boxes a ev = (
    record { timestamp = ev.timestamp; tie_break = ev.tie_break; obj = a },
    update boxes a (some (record { item_type = τ; value = ev.obj })),
  )

  -- `process_event`, up to the call of the typed one, whose argument is the result.
  unfoldable pub unbox_event : (τ : ℕ) → Boxes → Event UntypedBox → Exec (Event (Item τ) × Boxes)
  unfolding from_raw
  unbox_event τ boxes event = do
    (obj, boxes') ← from_raw τ boxes event.obj
    returns (record { timestamp = event.timestamp; tie_break = event.tie_break; obj = obj }, boxes')
