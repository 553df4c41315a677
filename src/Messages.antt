-- ===== src/Messages.antt =====
-- The closures that crates/core/dytor/src/context.rs makes of messages, and how `run_thread` of
-- crates/core/dytor/src/runtime/mod.rs runs one that it received, and then the local ones. The code of
-- the actors is a parameter.
pub mod Quiet
pub mod Each
pub mod Typed
pub mod Steps
pub mod Handled
pub mod Examples
use dytor.Common.{ℕ, zero, suc, List, [], ◌∷◌, ◌++◌, Option, none, some}
use dytor.Arena.{Arena, Offset, offset}
use dytor.Queue.{recv}
use dytor.Context.{ContextData, Key, Msg, BroadcastGroup, send_msg, broadcast}

-- What the code of an actor does with its `MainArgs`.
pub data ArgsCall (Meta F : Type 0) : Type 0 where
  send_to : Key Meta → F → ArgsCall Meta F
  broadcast_to : BroadcastGroup Meta → F → ArgsCall Meta F

-- What a message may change: `MainArgs::context_data`, and the objects.
pub record Thread (Meta F S : Type 0) : Type 0 where
  pub data_of : ContextData (Msg Meta F)
  pub objects : S

module _ {Meta F : Type 0} where
  -- `MainArgs::send_msg` and `MainArgs::broadcast`, as the code calls them one after another
  unfoldable pub perform :
      ContextData (Msg Meta F) → List (ArgsCall Meta F) → ContextData (Msg Meta F)
  perform d [] = d
  perform d (send_to key f ∷ calls) = perform (send_msg d key f) calls
  perform d (broadcast_to group f ∷ calls) = perform (broadcast d group f) calls

  -- The code behind a function: what it makes of the objects when it is called on the one at an
  -- address, and how it calls the `MainArgs`.
  module _ {S : Type 0} (code : F → ℕ → Meta → S → S × List (ArgsCall Meta F)) (arena : Arena) where
    -- `f(&mut args, unsafe { &mut *ptr })`
    abbrev pub call_on : F → Offset × Meta → Thread Meta F S → Thread Meta F S
    call_on f (o, meta) th =
        let done = code f (offset arena o) meta th.objects in
        record { data_of = perform th.data_of done.1; objects = done.0 }

    -- `for (offset, meta) in refs.as_ref()`
    abbrev pub call_each : F → List (Offset × Meta) → Thread Meta F S → Thread Meta F S
    call_each f [] th = th
    call_each f (ref ∷ refs) th = call_each f refs (call_on f ref th)

    -- `msg(&mut ctx)`
    abbrev pub run_msg : Msg Meta F → Thread Meta F S → Thread Meta F S
    run_msg m th = call_each m.call m.refs th

    -- `while let Some(msg) = ctx.data.local_queue.recv() { msg(&mut ctx); }`, on fuel
    unfoldable pub drain_local : ℕ → Thread Meta F S → Option (Thread Meta F S)
    drain_local zero th = none
    drain_local (suc fuel) th = elim (recv th.data_of.local_queue) [
      | none ↦ some th
      | some (m, rest) ↦
          drain_local fuel
            (run_msg m (record th { data_of = record (th.data_of) { local_queue = rest } }))
    ]

    -- What `run_thread` does with a message that it received, up to its unsent messages.
    unfoldable pub handle : ℕ → Msg Meta F → Thread Meta F S → Option (Thread Meta F S)
    unfolding drain_local
    handle fuel m th = drain_local fuel (run_msg m th)
