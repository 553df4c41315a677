-- ===== src/App/Main.antt =====
-- `main` of crates/examples/app/src/main.rs: it opens the shared libraries, whose constructors link
-- their nodes, and runs the configuration.
use Prim.Native.String.{String}
use dytor.Common.{
  ℕ, ◌+◌, ◌*◌, ◌<◌, ◌≤◌, ◌≡◌, refl, arith, List, [], ◌∷◌, ◌++◌, Option, none, some, Exec, returns,
  ◌>>=◌, u32_mod,
}
use dytor.Registry.{Registry, ActorType, ListNode, get_registry}
use dytor.Shutdown.{System, start}
use dytor.Runtime.Configured.{Answers}
use dytor.Runtime.Run.{run, run-start, create_context_args-some}
use dytor.App.{main_config, main_config-returns, IsSmall}

abbrev pub shared_lib_paths : List String
shared_lib_paths = "target/x86_64-unknown-linux-gnu/debug/libreplay_mock.so" ∷ []

-- What `libc::dlopen` does: a handle and the nodes that the library's constructors link, the last
-- one first, or a null pointer. The result is not looked at.
abbrev pub Opener : Type 0
Opener = String → Option (ℕ × List ListNode)

-- The handles, and the nodes that are linked.
unfoldable pub open_all : Opener → List String → List ListNode → List (Option ℕ) × List ListNode
open_all dlopen [] nodes = ([], nodes)
open_all dlopen (path ∷ paths) nodes = elim (dlopen path) [
  | none ↦ let rest = open_all dlopen paths nodes in (none ∷ rest.0, rest.1)
  | some (handle, linked) ↦
      let rest = open_all dlopen paths (linked ++ nodes) in (some handle ∷ rest.0, rest.1)
]

-- `main`, up to the point at which `run` has spawned the threads, and the handles that are closed
-- when they have ended. `linked` are the nodes of the executable.
unfoldable pub main :
    {V M : Type 0} → V → Opener → (ℕ → ℕ → ℕ) → List ListNode → Exec (List (Option ℕ) × System M)
unfolding open_all run
main unit dlopen alloc linked = do
  let opened = open_all dlopen shared_lib_paths linked
  r ← get_registry opened.1
  system ← run r alloc (main_config unit)
  returns (opened.0, system)

-- If the library is opened, the registry is built without a panic from its nodes and those of the
-- executable, types of the three names are among them, with valid layouts that together need less
-- than 2^32 bytes, and the allocator returns blocks, then `main` spawns the one thread of the state in
-- which the step relation starts for one context, and has the library to close afterwards.
pub main-start :
    {V : Type 0} (M : Type 0) (unit : V) (dlopen : Opener) (handle : ℕ)
    (provided linked : List ListNode) (r : Registry) (bytes widest : ℕ)
    (synchronizer producer consumer : ActorType) (alloc : ℕ → ℕ → ℕ)
    → dlopen "target/x86_64-unknown-linux-gnu/debug/libreplay_mock.so" ≡ some (handle, provided)
    → get_registry (provided ++ linked) ≡ returns r
    → synchronizer.name ≡ "Synchronizer"
    → producer.name ≡ "IntervalUnitProducer"
    → consumer.name ≡ "IntervalUnitConsumer"
    → IsSmall bytes widest (provided ++ linked) synchronizer
    → IsSmall bytes widest (provided ++ linked) producer
    → IsSmall bytes widest (provided ++ linked) consumer
    → 1 ≤ widest
    → 3 * bytes + 2 * widest < u32_mod
    → ((i : ℕ) → Answers (alloc i))
    → main unit dlopen alloc linked ≡ returns (some handle ∷ [], start {M = M} 1)
unfolding main open_all main_config
main-start M unit dlopen handle provided linked r bytes widest synchronizer producer consumer alloc
      opened built s p c small_s small_p small_c one room answers =
    let (args, block, made) =
      main_config-returns unit (provided ++ linked) r built bytes widest synchronizer producer
        consumer alloc s p c small_s small_p small_c one room answers in
    let (first, head) =
      create_context_args-some r alloc (main_config unit) args block made (omega arith)
        (omega arith) in
    let (spawns, _, _) =
      run-start M r alloc (main_config unit) args block 0 first made (omega arith) (omega arith)
        head in
    rw (opened, built, spawns) refl
