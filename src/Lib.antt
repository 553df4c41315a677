-- ===== src/Lib.antt =====
-- A verification library for dytor, a framework in which actors live in contexts, each context has a
-- thread, and actors call one another by messages.
--
-- How the program's parts work together. The macros of crates/core/dytor/src/registry.rs link a node
-- for each actor type; `Registry::get` calls them once. `run` in crates/core/dytor/src/runtime/mod.rs
-- reads a configuration (config.rs), gives each actor an id and a context, sizes and fills an arena
-- for each context (arena.rs), and starts a thread for each. The thread constructs its actors, which
-- ask by queries (lookup.rs) for keys, accessors and groups of other actors; queries for local keys
-- add relations that must not form a cycle (runtime/graph.rs). Then the threads pass messages over
-- queues (queue/) until a shared count of events (context.rs) says that none is left.
--
-- Which file models what; each definition has the name that the source uses, or stands under a
-- comment that says which lines it is:
--   Common        Booleans, lists, the results of code that may panic (`Exec`), and hash maps as
--                 association lists (Dict)
--   Arena         crates/core/dytor/src/arena.rs: `compute_space_required`, `get_offsets`,
--                 `from_layouts`, `at_offset`. Addresses are numbers; `Arena` is an address and a size
--   Graph         crates/core/dytor/src/runtime/graph.rs: `has_cycles` and `dfs`. The cells of the
--                 nodes are a function that is passed along
--   Queue         crates/core/dytor/src/queue/local.rs; Queue.Remote is queue/remote.rs over the calls
--                 of the std channel
--   Context       crates/core/dytor/src/context.rs: ids, keys, `send_msg`, `broadcast`, the control
--                 block. A boxed closure is what it is called on and the function
--   Messages      the closures of context.rs and the loop over the local messages of `run_thread`, run
--                 over any code of the actors; Messages.Steps runs them as steps of the module Shutdown,
--                 and Messages.Typed follows a message to the object that it is for
--   Calls         `call` and `borrow_mut` of lookup.rs: which actors are borrowed at once while the
--                 code of the actors nests them
--   Blocks        the memory that the control block (context.rs) and the arenas (arena.rs) take and
--                 give back, with the layouts that they name
--   Object        crates/core/dytor/src/object/: the constructor that `create_vtable` makes and the drop
--                 function. Memory says which object and type stands at each address
--   Registry      crates/core/dytor/src/registry.rs, and the tables of object/mod.rs: `init_actor`,
--                 `init_resource`, `Registry::get`, `by_name`. Registry.Nodes is the list behind
--                 `INIT_FNS`: `init_node` as steps of overlapping calls, and the walk of `Registry::get`.
--                 Registry.Macros has what `register_actor!`, `register_resource!` and the derive macro
--                 of crates/core/dytor_proc_macros/src/lib.rs make
--   Lookup        crates/core/dytor/src/lookup.rs: the two lookups and the queries; Lookup.Grab is `Grab` of
--                 context.rs
--   Config        crates/core/dytor/src/config.rs
--   Runtime       crates/core/dytor/src/runtime/mod.rs up to `create_context` (Runtime.Create):
--                 `allocate_actors`, `create_context_args`. Runtime.Create also has the drop of a
--                 context (context.rs), and Runtime.Resources the map of resources and `get_resource`; Runtime.Run
--                 is `run`, whose threads start the step relation of Shutdown
--   Shutdown      `run_thread` of the same file, with `Accessor::send` and the drop of an accessor
--                 (context.rs), as a step relation on all threads, queues and the control block;
--                 Shutdown.Sending has the links between contexts and `sort_by_key`, and Shutdown.Senders
--                 says who holds the `Tx` ends of a context's queue
--   Replay        crates/examples/replay/src/: `init` of the synchronizer
--                 (Replay.Sources), the merge of the producers' streams (synchronizer.rs), the
--                 boxes of the events (producer.rs: Replay.Boxes; Replay.Producer has the threads' steps),
--                 and the event loop of tokio_wrapper.rs (Replay.EventLoop)
--   Mock          crates/examples/replay_mock/src/lib.rs: the events of `IntervalUnitProducer`,
--                 and what its consumers print (Mock.Consumers)
--   App           crates/examples/app/src/main.rs: the configuration that `main` runs, and `main`
--                 over any behaviour of `dlopen` (App.Main)
--
-- Conventions. Code that may panic returns `Exec`: `panics` stands for a failed `unwrap` or
-- assertion, an index out of bounds, and an overflow, which the development profile checks. `u32` and
-- `usize` are natural numbers with those bounds; atomic counters wrap around. A panic of a thread ends
-- the run, so that the step relation has no step for it.
--
-- Parameters, for code that is not the repository's or whose behaviour is not specified: the allocator
-- (an address for a size, 0 if it fails), the orders in which hash tables are iterated (`HashOrder`,
-- `MapOrder`, which say that every entry is visited), the heap of the standard library (which pops a
-- greatest entry), the code of the actors (what their constructors do, how their configuration is
-- deserialized, what their code does to the objects, and which messages they send), the metadata of
-- trait objects, and what `dlopen` returns.
--
-- Bounds. `dfs` recurses on fuel: one more than the number of nodes, which is enough, since every
-- call of a node marks it until it returns. `drain` of Replay has fuel for one round more than there
-- are events, and each round sends one. The walk of `Registry::get` has fuel for one round more than
-- there are linked nodes. Runs of the threads are followed while fewer than 2^32
-- events are left, so that the counter does not wrap around.
--
-- Steps of a run. A thread and the holder of an accessor are interleaved at each access of a queue or
-- of the control block. A message may send any messages while it runs. Atomic operations take effect
-- in one order; that `Relaxed` orderings suffice is not part of the model.
--
-- Other steps. The calls of `init_node` take effect access by access, and `compare_exchange_weak` may
-- fail at any time. The boxes of Replay get any address that is not in use; to read one that is freed,
-- or at another type, is a panic of the model. A `LazyLock` orders the accesses to its resource. The event
-- loop of Replay polls its channel and then the signal, and drops the channel after the break, in steps
-- of their own.
--
-- Nested calls. In Calls an actor calls only through the local keys that it asked for itself. The type
-- of a key does not say so: within a thread one actor may pass a key on to another. The steps say with
-- a parameter whether the closures that are given to `call` capture keys; the type does not keep them
-- from it, since a key can be copied.
--
-- Messages. In Messages, running a message or the local ones may not end, since the code of the actors
-- may send for ever: `handle` has fuel, and the weight of the messages bounds it, if every message
-- weighs more than those that it sends to its own context. The contract of `dealloc` is written out in
-- Blocks, and what the channel of std does is a hypothesis of Queue.Remote.
--
-- Not modelled: the joining of the threads of `run` and closing of libraries after that; the values of
-- the actors' fields, but for the addresses and types of the objects; what syn and quote do in the
-- procedural macro; of the crates under crates/examples, common, which re-exports, and in replay_mock
-- the channel of tokio between a producer's task and its stream. The trait
-- implementations that only pass a call on (From, Clone, Debug, Deref) have no definitions.
pub mod Common
pub mod Arena
pub mod Graph
pub mod Queue
pub mod Context
pub mod Shutdown
pub mod Registry
pub mod Lookup
pub mod Config
pub mod Runtime
pub mod Replay
pub mod Object
pub mod App
pub mod Blocks
pub mod Calls
pub mod Messages
pub mod Mock
