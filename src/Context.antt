-- ===== src/Context.antt =====
-- crates/core/dytor/src/context.rs: identifiers, the data of a context, the routing of messages, and
-- the control block that counts unhandled events.
use dytor.Common.{
  ℕ, ◌+◌, ◌-◌, ◌%◌, Bool, false, ◌||◌, List, [], ◌∷◌, ◌++◌, Option, none, some, u32_mod, leb, ◌==◌,
  if◌then◌else◌,
}
use dytor.Queue.{LocalQueue, send}
use dytor.Arena.{Offset}

-- `ContextId`, and `ActorId` likewise: a `NonZeroU32`.
abbrev pub ContextId : Type 0
ContextId = ℕ

-- `new`
unfoldable pub new : ℕ → Option ContextId
new x = if x == 0 then none else some x

-- `as_index`; an id is never 0.
abbrev pub as_index : ContextId → ℕ
as_index id = id - 1

-- `ContextData`, over the type of messages.
pub record ContextData (M : Type 0) : Type 0 where
  pub id : ContextId
  pub local_queue : LocalQueue M
  pub unsent_messages : List (ContextId × M)

-- The branch at the end of `send_msg` and in the loop of `broadcast`.
unfoldable pub route : {M : Type 0} → ContextData M → ContextId → M → ContextData M
unfolding send
route d to m =
    if d.id == to
    then record d { local_queue = send d.local_queue m }
    else record d { unsent_messages = d.unsent_messages ++ (to, m) ∷ [] }

-- `Loc` and `Key` of lookup.rs; `Meta` is the pointer metadata of the actor's type.
pub record Loc : Type 0 where
  pub context_id : ContextId
  pub offset : Offset

pub record Key (Meta : Type 0) : Type 0 where
  pub loc : Loc
  pub meta : Meta

-- A boxed closure: the objects that it is called on, in order, and the function that is called.
pub record Msg (Meta F : Type 0) : Type 0 where
  pub refs : List (Offset × Meta)
  pub call : F

-- `BroadcastGroup`
abbrev pub BroadcastGroup : Type 0 → Type 0
BroadcastGroup Meta = List (ContextId × List (Offset × Meta))

module _ {Meta F : Type 0} where
  -- `InitArgs::send_msg` and `MainArgs::send_msg`
  unfoldable pub send_msg : ContextData (Msg Meta F) → Key Meta → F → ContextData (Msg Meta F)
  unfolding route
  send_msg d key f =
      route d key.loc.context_id (record { refs = (key.loc.offset, key.meta) ∷ []; call = f })

  -- `ContextData::broadcast`, to which the two methods `broadcast` pass the call on.
  unfoldable pub broadcast :
      ContextData (Msg Meta F) → BroadcastGroup Meta → F → ContextData (Msg Meta F)
  unfolding route
  broadcast d [] f = d
  broadcast d ((id, refs) ∷ group) f =
      broadcast (route d id (record { refs = refs; call = f })) group f

-- `ControlBlock`, with whether it was deallocated.
pub record ControlBlock : Type 0 where
  pub unhandled_events : ℕ
  pub freed : Bool

-- `ControlBlockPtr::new`
abbrev pub new_block : ControlBlock
new_block = record { unhandled_events = 1; freed = false }

-- `AtomicU32::fetch_add` and `fetch_sub`, which wrap around.
abbrev pub fetch_add : ControlBlock → ℕ → ControlBlock
fetch_add b k = record b { unhandled_events = (b.unhandled_events + k) % u32_mod }

abbrev pub fetch_sub : ControlBlock → ControlBlock
fetch_sub b = record b { unhandled_events = (b.unhandled_events + u32_mod - 1) % u32_mod }

-- `ControlBlockPtr::clone`
abbrev pub clone : ControlBlock → ControlBlock
clone b = fetch_add b 1

-- `ControlBlockPtr::release`, which frees the block if it took the last count.
abbrev pub release : ControlBlock → ControlBlock
release b = record (fetch_sub b) { freed = b.freed || leb b.unhandled_events 1 }
