-- ===== src/Lookup/Examples.antt =====
-- The queries of lookup.rs on the actors of two contexts.
use dytor.Common.{Memᴰ, false, ◌↔◌, ◌+◌, ◌*◌, ℕ, ◌≡◌, List, [], ◌∷◌, returns, refl}
use dytor.Arena.{Offset}
use dytor.Context.{ContextData, Key, Msg, ControlBlock, broadcast, new_block}
use dytor.Lookup.{
  lookup_trait, Found, Accessor, accessor_for_key, ActorTree, lookup_type, all_accessors,
  broadcast_group,
}
use dytor.Lookup.Groups.{MapOrder, mail, broadcast-mail}
use dytor.Registry.{TypeId, TraitId, Registry, get_registry}
use dytor.Registry.Macros.{RustType, Declaration, register_actor, nodes_of}
use dytor.Lookup.Declared.{IsDeclared, lookup_trait_iff}
use dytor.Lookup.Grab.{type_key, trait_key, end, part, Grabbed, grab}

-- Two producers in context 1, one in context 2, and a consumer of another type.
abbrev tree : ActorTree
tree =
    record {
      id = 1;
      vtable = record { type_id = 5; size = 16; align = 8 };
      loc = record { context_id = 1; offset = 0 };
    }
    ∷ record {
      id = 2;
      vtable = record { type_id = 5; size = 16; align = 8 };
      loc = record { context_id = 2; offset = 8 };
    }
    ∷ record {
      id = 3;
      vtable = record { type_id = 6; size = 0; align = 1 };
      loc = record { context_id = 2; offset = 24 };
    }
    ∷ record {
      id = 4;
      vtable = record { type_id = 5; size = 16; align = 8 };
      loc = record { context_id = 1; offset = 16 };
    }
    ∷ []

abbrev producers : Found (Unit {0})
producers =
    (1, record { loc = record { context_id = 1; offset = 0 }; meta = tt })
    ∷ (2, record { loc = record { context_id = 2; offset = 8 }; meta = tt })
    ∷ (4, record { loc = record { context_id = 1; offset = 16 }; meta = tt })
    ∷ []

lookup-producers : lookup_type 5 tree ≡ producers
unfolding lookup_type
lookup-producers = refl

abbrev consumers : Found (Unit {0})
consumers = (3, record { loc = record { context_id = 2; offset = 24 }; meta = tt }) ∷ []

abbrev as_inserted : MapOrder (List (Offset × Unit {0}))
as_inserted = record { arrange = λ d. d; same_entries = λ c d. refl }

abbrev sender : ContextData (Msg (Unit {0}) ℕ)
sender = record { id = 2; local_queue = []; unsent_messages = [] }

broadcast-mail_example :
    mail 1 (broadcast sender (broadcast_group as_inserted.arrange producers) 9)
    ≡ record { refs = (0, tt) ∷ (16, tt) ∷ []; call = 9 } ∷ []
broadcast-mail_example = broadcast-mail as_inserted producers 1 sender 9

abbrev two_accessors : List (Accessor (Unit {0})) × ControlBlock
two_accessors = (
  record { offset = 0; metadata = tt; ctx_queue = 0 }
      ∷ record { offset = 8; metadata = tt; ctx_queue = 1 }
      ∷ record { offset = 16; metadata = tt; ctx_queue = 0 }
      ∷ [],
  record { unhandled_events = 4; freed = false },
)

all_accessors-producers : all_accessors (0 ∷ 1 ∷ []) producers new_block ≡ returns two_accessors
unfolding all_accessors accessor_for_key
all_accessors-producers = refl

-- The types of these actors, with a trait each, and metadata that a compiler may make.
abbrev producer_type : RustType
producer_type = record { ident = "Producer"; type_id = 5; size_of = 16; align_of = 8 }

abbrev consumer_type : RustType
consumer_type = record { ident = "Consumer"; type_id = 6; size_of = 0; align_of = 1 }

abbrev declarations : List Declaration
declarations = register_actor producer_type (7 ∷ []) ∷ register_actor consumer_type (8 ∷ []) ∷ []

abbrev metadata : TraitId → TypeId → ℕ
metadata tr t = 5 * tr + t

abbrev built : Registry
built = record {
  actor_types =
      (5, record { type_id = 5; size = 16; align = 8 })
      ∷ (6, record { type_id = 6; size = 0; align = 1 })
      ∷ [];
  trait_types =
      (7, record { type_id = 5; dyn_meta = 40 } ∷ [])
      ∷ (8, record { type_id = 6; dyn_meta = 46 } ∷ [])
      ∷ [];
  name_to_type_id = ("Producer", 5) ∷ ("Consumer", 6) ∷ [];
  resource_constructors = [];
}

get_registry-built : get_registry (nodes_of metadata declarations) ≡ returns built
unfolding get_registry
get_registry-built = refl

abbrev first_key : Key ℕ
first_key = record { loc = record { context_id = 1; offset = 0 }; meta = 40 }

lookup_trait_iff_example :
    Memᴰ (1, first_key) (lookup_trait built 7 tree)
    ↔ IsDeclared metadata declarations 7 tree 1 first_key
lookup_trait_iff_example =
    lookup_trait_iff metadata declarations built get_registry-built 7 tree 1 first_key

first_found : Memᴰ (1, first_key) (lookup_trait built 7 tree)
unfolding lookup_trait
first_found = Memᴰ.head refl

abbrev consumer_keys : Grabbed (part (type_key 6) (part (trait_key 8) end))
consumer_keys = (
  record { loc = record { context_id = 2; offset = 24 }; meta = tt },
  (record { loc = record { context_id = 2; offset = 24 }; meta = 46 }, tt),
)

grab-consumer_keys :
    grab built tree (part (type_key 6) (part (trait_key 8) end)) ≡ returns consumer_keys
unfolding grab
grab-consumer_keys = refl
