-- ===== src/Replay/Examples.antt =====
-- A heap by search, and two producers.
use dytor.Context.{Key, new_block}
use dytor.Registry.{TypeId, TraitId, Registry, get_registry}
use dytor.Registry.Macros.{RustType, Declaration, register_actor, register_resource, nodes_of}
use dytor.Lookup.{ActorTree, Accessor}
use dytor.Lookup.Declared.{IsDeclared}
use dytor.Runtime.Resources.{resource_map}
use dytor.Replay.Sources.{init, Leads, init-accessors}
use dytor.Replay.Order.{background_task-latest}
use dytor.Common.{
  returns, ◌*◌, ◌+◌, ◌↔◌, Memᴰ, ℕ, zero, suc, ◌≤◌, ◌≡◌, refl, ap, arith, Bool, true, false, List,
  [], ◌∷◌, ◌++◌, Option, none, some, All,
}
use dytor.Replay.{
  Event, HeapEntry, Ordering, less, equal, greater, cmp, IsAtMost, Heap, background_task,
}
use dytor.Replay.Merge.{events_of, stream_of, times, background_task-events}

abbrev is_greater : Ordering → Bool
is_greater greater = true
is_greater equal = false
is_greater less = false

cmp_trans : (a e x : HeapEntry ℕ) → IsAtMost a e → is_greater (cmp x e) ≡ true → IsAtMost a x
unfolding cmp
cmp_trans a e x p q = ground arith

cmp_refl : (x : HeapEntry ℕ) → IsAtMost x x
unfolding cmp
cmp_refl x = ground arith

is_greater-false : (a e : HeapEntry ℕ) → is_greater (cmp a e) ≡ false → IsAtMost a e
is_greater-false a e h = ground arith

-- Where a greatest entry stands.
record Found (heap : List (HeapEntry ℕ)) : Type 0 where
  before : List (HeapEntry ℕ)
  entry : HeapEntry ℕ
  after : List (HeapEntry ℕ)
  parts : heap ≡ before ++ entry ∷ after
  greatest : All (λ a. IsAtMost a entry) heap

All-greater :
    (e x : HeapEntry ℕ) (xs : List (HeapEntry ℕ))
    → is_greater (cmp x e) ≡ true
    → All (λ a. IsAtMost a e) xs
    → All (λ a. IsAtMost a x) xs
All-greater e x [] h all = tt
All-greater e x (y ∷ ys) h all = (cmp_trans y e x all.0 h, All-greater e x ys h all.1)

-- The greater of `x` and what was found behind it.
abbrev choose :
    (x y : HeapEntry ℕ) (ys : List (HeapEntry ℕ)) (f : Found (y ∷ ys)) (b : Bool)
    → is_greater (cmp x f.entry) ≡ b
    → Found (x ∷ y ∷ ys)
choose x y ys f true e = record {
  before = [];
  entry = x;
  after = y ∷ ys;
  parts = refl;
  greatest = (cmp_refl x, All-greater f.entry x (y ∷ ys) e f.greatest);
}
choose x y ys f false e = record {
  before = x ∷ f.before;
  entry = f.entry;
  after = f.after;
  parts = ap (λ l. x ∷ l) f.parts;
  greatest = (is_greater-false x f.entry e, f.greatest);
}

abbrev search_from : (x : HeapEntry ℕ) (xs : List (HeapEntry ℕ)) → Found (x ∷ xs)
search_from x [] = record {
  before = [];
  entry = x;
  after = [];
  parts = refl;
  greatest = (cmp_refl x, tt);
}
search_from x (y ∷ ys) =
    let f = search_from y ys in choose x y ys f (is_greater (cmp x f.entry)) refl

abbrev pop_by_search : List (HeapEntry ℕ) → Option (HeapEntry ℕ × List (HeapEntry ℕ))
pop_by_search [] = none
pop_by_search (x ∷ xs) = let f = search_from x xs in some (f.entry, f.before ++ f.after)

abbrev by_search : Heap ℕ
by_search = record {
  pop = pop_by_search;
  pop-none = refl;
  pop-some = λ heap x xs e.
      let f = search_from x xs in rw e (f.before, f.entry, f.after, f.parts, refl, f.greatest);
}

abbrev at : ℕ → ℕ → Event ℕ
at time x = record { timestamp = time; tie_break = 0; obj = x }

abbrev two : List (ℕ × List (Event ℕ))
two = (0, at 1 10 ∷ at 5 11 ∷ []) ∷ (1, at 2 20 ∷ []) ∷ []

once : (p : ℕ) → times p two ≤ 1
once zero = omega arith
once (suc zero) = omega arith
once (suc (suc p)) = ground arith

background_task-events_example :
    (sent : List (ℕ × Event ℕ)) × (background_task by_search two ≡ some sent)
    × ((p : ℕ) → events_of p sent ≡ stream_of p two)
background_task-events_example = background_task-events by_search two once

background_task-two :
    background_task by_search two ≡ some ((1, at 2 20) ∷ (0, at 1 10) ∷ (0, at 5 11) ∷ [])
unfolding background_task cmp
background_task-two = refl

background_task-latest_example : 1 ≤ 2
background_task-latest_example =
    background_task-latest by_search two 1 0 (at 2 20) (at 1 10) ((0, at 1 10) ∷ (0, at 5 11) ∷ [])
      (at 5 11 ∷ []) background_task-two (Memᴰ.head refl)

-- A synchronizer in context 1 and a producer in context 2.
abbrev producer_type : RustType
producer_type = record { ident = "Producer"; type_id = 5; size_of = 16; align_of = 8 }

abbrev declarations : List Declaration
declarations = register_actor producer_type (7 ∷ []) ∷ register_resource 9 1 ∷ []

abbrev metadata : TraitId → TypeId → ℕ
metadata tr t = 5 * tr + t

abbrev built : Registry
built = record {
  actor_types = (5, record { type_id = 5; size = 16; align = 8 }) ∷ [];
  trait_types = (7, record { type_id = 5; dyn_meta = 40 } ∷ []) ∷ [];
  name_to_type_id = ("Producer", 5) ∷ [];
  resource_constructors = (9, 1) ∷ [];
}

get_registry-built : get_registry (nodes_of metadata declarations) ≡ returns built
unfolding get_registry
get_registry-built = refl

abbrev tree : ActorTree
tree =
    record {
      id = 1;
      vtable = record { type_id = 4; size = 0; align = 1 };
      loc = record { context_id = 1; offset = 0 };
    }
    ∷ record {
      id = 2;
      vtable = record { type_id = 5; size = 16; align = 8 };
      loc = record { context_id = 2; offset = 8 };
    }
    ∷ []

abbrev closures : ℕ → ℕ → Option ℕ × ℕ
closures f made = (some (f + 100), suc made)

abbrev source : Accessor ℕ
source = record { offset = 8; metadata = 40; ctx_queue = 1 }

init-source :
    (init closures built 7 9 tree
      (0 ∷ 1 ∷ [])
      new_block
      (resource_map built.resource_constructors, 0)).0
    ≡ returns (source ∷ [], 101, record { unhandled_events = 2; freed = false })
unfolding init resource_map
init-source = refl

init-accessors_example : Memᴰ source (source ∷ []) ↔ (
    (id : ℕ) × (key : Key ℕ) × IsDeclared metadata declarations 7 tree id key
    × Leads (0 ∷ 1 ∷ []) key source)
init-accessors_example =
    init-accessors closures metadata declarations built 7 9 tree (0 ∷ 1 ∷ []) new_block
      (record { unhandled_events = 2; freed = false }) (resource_map built.resource_constructors, 0)
      (source ∷ []) 101 source get_registry-built init-source
