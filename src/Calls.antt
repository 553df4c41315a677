-- ===== src/Calls.antt =====
-- crates/core/dytor/src/lookup.rs: `call` and `borrow_mut` of a local key, by which the actors of a
-- context reach one another while a message runs in its thread.
pub mod Distinct
pub mod Examples
use dytor.Common.{ℕ, ◌≡◌, Bool, true, not, ◌&&◌, List, [], ◌∷◌, ◌++◌, Memᴰ, returns}
use dytor.Arena.{Arena, Offset, offset}
use dytor.Context.{Key}
use dytor.Graph.{ActorId, DependenceRelation, contains}
use dytor.Lookup.{Found, AcyclicLocalKey, InitArgs, acyclic_local_key}

-- A local key that an actor was given: who asked for it, and which actor it leads to.
pub record Held (Meta : Type 0) : Type 0 where
  pub asker : ActorId
  pub leads_to : ActorId
  pub key : AcyclicLocalKey Meta

-- A `&mut` to an actor, at an address.
pub record Borrow : Type 0 where
  pub actor : ActorId
  pub ptr : ℕ

-- The actors that are borrowed, the last first.
abbrev pub actors : List Borrow → List ActorId
actors [] = []
actors (b ∷ bs) = b.actor ∷ actors bs

unfoldable pub distinct : List ActorId → Bool
distinct [] = true
distinct (a ∷ rest) = not (contains a rest) && distinct rest

-- What runs, and the references that `borrow_mut` has returned and that are still in use. Such a
-- reference holds its key, but not the `MainArgs`, so that the code that asked for it can go on to
-- call through another key.
pub record Borrows : Type 0 where
  pub running : List Borrow
  pub kept : List Borrow

module _ {Meta : Type 0} where
  -- The keys and the relations that the queries of the constructors of a context leave: each query
  -- finds the relations as the one before has left them.
  pub data Asks : List (Held Meta) → List DependenceRelation → Type 0 where
    none_asked : Asks [] []
    asked :
        {held : List (Held Meta)} (args args' : InitArgs) (found : Found Meta) (id : ActorId)
        (key : Key Meta) (k : AcyclicLocalKey Meta)
        → Asks held args.dependence_relations
        → acyclic_local_key ((id, key) ∷ found) args ≡ returns (k, args')
        → Asks
            (record { asker = args.actor_being_constructed; leads_to = id; key = k } ∷ held)
            args'.dependence_relations

  -- `call` and `borrow_mut`: the object that the pointer leads to.
  abbrev pub target : Arena → Held Meta → Borrow
  target arena h = record { actor = h.leads_to; ptr = offset arena h.key.offset }

  -- The borrows of a thread, the last first. The code of the last one runs, and then the closure that
  -- was given to `call`, which is code of the actor that called. An actor calls through a key that it has
  -- asked for itself. If closures capture keys, which an `Fn` may in a copy or behind a cell, those of
  -- the actors further down call through them.
  pub data Step (captures : Bool) (arena : Arena) (held : List (Held Meta))
      : List Borrow → List Borrow → Type 0 where
    -- The closure of a message calls its function on an object.
    runs :
        (a : ActorId) (o : Offset)
        → Step captures arena held [] (record { actor = a; ptr = offset arena o } ∷ [])
    -- `call`
    calls :
        {b : Borrow} {bs : List Borrow} {h : Held Meta}
        → Memᴰ h held
        → h.asker ≡ b.actor
        → Step captures arena held (b ∷ bs) (target arena h ∷ b ∷ bs)
    -- `call` in a closure that was given to `call` by an actor further down
    calls_captured :
        {a b : Borrow} {bs : List Borrow} {h : Held Meta}
        → captures ≡ true
        → Memᴰ a bs
        → Memᴰ h held
        → h.asker ≡ a.actor
        → Step captures arena held (b ∷ bs) (target arena h ∷ b ∷ bs)
    -- The function returns.
    ends : {b : Borrow} {bs : List Borrow} → Step captures arena held (b ∷ bs) bs

  pub data Reach (captures : Bool) (arena : Arena) (held : List (Held Meta))
      : List Borrow → Type 0 where
    idle : Reach captures arena held []
    after :
        {bs cs : List Borrow}
        → Reach captures arena held bs
        → Step captures arena held bs cs
        → Reach captures arena held cs

  pub data BorrowStep (captures : Bool) (arena : Arena) (held : List (Held Meta))
      : Borrows → Borrows → Type 0 where
    steps :
        {bs cs kept : List Borrow}
        → Step captures arena held bs cs
        → BorrowStep captures arena held
            (record { running = bs; kept = kept })
            (record { running = cs; kept = kept })
    -- `borrow_mut` in the code of the last one
    borrows :
        {b : Borrow} {bs kept : List Borrow} {h : Held Meta}
        → Memᴰ h held
        → h.asker ≡ b.actor
        → BorrowStep captures arena held
            (record { running = b ∷ bs; kept = kept })
            (record { running = b ∷ bs; kept = target arena h ∷ kept })
    -- in a closure that was given to `call` by an actor further down
    borrows_captured :
        {a b : Borrow} {bs kept : List Borrow} {h : Held Meta}
        → captures ≡ true
        → Memᴰ a bs
        → Memᴰ h held
        → h.asker ≡ a.actor
        → BorrowStep captures arena held
            (record { running = b ∷ bs; kept = kept })
            (record { running = b ∷ bs; kept = target arena h ∷ kept })

  pub data BorrowReach (captures : Bool) (arena : Arena) (held : List (Held Meta))
      : Borrows → Type 0 where
    idle : BorrowReach captures arena held (record { running = []; kept = [] })
    after :
        {s t : Borrows}
        → BorrowReach captures arena held s
        → BorrowStep captures arena held s t
        → BorrowReach captures arena held t
