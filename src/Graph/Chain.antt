-- ===== src/Graph/Chain.antt =====
-- Chains of dependences, for graph.rs, and nodes from which every chain ends.
use dytor.Common.{◌≡◌, List, Memᴰ, some}
use dytor.Graph.{ActorId, Graph, get}

-- `b` is a child of `a`.
abbrev pub Edge : Graph → ActorId → ActorId → Type 0
Edge g a b = (cs : List ActorId) × (get a g ≡ some cs) × Memᴰ b cs

-- At least one step of `R`.
pub data Chain (R : ActorId → ActorId → Type 0) : ActorId → ActorId → Type 0 where
  one : {a b : ActorId} → R a b → Chain R a b
  more : {a b c : ActorId} → R a b → Chain R b c → Chain R a c

pub snoc : {R : ActorId → ActorId → Type 0} {a b c : ActorId} → Chain R a b → R b c → Chain R a c
snoc (one r) e = more r (one e)
snoc (more r p) e = more r (snoc p e)

pub map-Chain :
    {R S : ActorId → ActorId → Type 0} {a b : ActorId}
    → ((x y : ActorId) → R x y → S x y)
    → Chain R a b
    → Chain S a b
map-Chain f (one r) = one (f _ _ r)
map-Chain f (more r p) = more (f _ _ r) (map-Chain f p)

pub data Ends (R : ActorId → ActorId → Type 0) : ActorId → Type 0 where
  ends : {a : ActorId} → ((b : ActorId) → R a b → Ends R b) → Ends R a

-- The first step of a chain, which may follow the last one as well.
rotate :
    {R : ActorId → ActorId → Type 0} {a c : ActorId}
    → Chain R a c
    → (b : ActorId) × R a b × ((x : ActorId) → R c x → Chain R b x)
rotate (one r) = (_, r, λ x e. one e)
rotate (more r p) = (_, r, λ x e. snoc p e)

-- No cycle passes through a node from which every chain ends.
pub Ends-acyclic : {R : ActorId → ActorId → Type 0} {a : ActorId} → Ends R a → ¬ Chain R a a
Ends-acyclic (ends f) p = let (b, r, again) = rotate p in Ends-acyclic (f b r) (again b r)
