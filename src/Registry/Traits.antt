-- ===== src/Registry/Traits.antt =====
-- The types of a trait in the registry that `Registry::get` (registry.rs) built.
use mathlib.Core.List.{append_assoc, append-nil}
use mathlib.Core.List.Memᴰ
use dytor.Common.{
  ◌≡◌, refl, sym, ◌∙◌, ap, subst, arith, Bool, true, false, List, [], ◌∷◌, ◌++◌, Memᴰ, Option, none,
  some, returns, inl, inr, Bool-cases, ◌==◌, ==_iff, if◌then◌else◌,
}
use dytor.Common.Dict.{nat_eq, get, alter, get-alter, insert}
use dytor.Registry.{
  TraitId, InterfaceMetadata, Registry, empty_registry, registered, init_resource, push_traits,
  ActorType, init_actor, ListNode, actor, resource, call, call_all, get_registry,
}
use dytor.Registry.Found.{init_actor-Registers, call_all-cons, call_all-nil}

-- The types that the registry has for a trait.
abbrev pub implementors : Registry → TraitId → List InterfaceMetadata
implementors r tr = elim (get tr r.trait_types) [ none ↦ [] | some types ↦ types ]

-- Those that the nodes register for it, in their order.
abbrev metas_of : TraitId → List (TraitId × InterfaceMetadata) → List InterfaceMetadata
metas_of tr [] = []
metas_of tr ((t, meta) ∷ rest) = if t == tr then meta ∷ metas_of tr rest else metas_of tr rest

abbrev pub declared : TraitId → List ListNode → List InterfaceMetadata
declared tr [] = []
declared tr (actor t ∷ nodes) = metas_of tr t.traits ++ declared tr nodes
declared tr (resource _ _ ∷ nodes) = declared tr nodes

push_one :
    (r : Registry) (t tr : TraitId) (meta : InterfaceMetadata)
    → implementors
        (record r { trait_types = alter t [] (λ metas. metas ++ meta ∷ []) r.trait_types })
        tr
      ≡ implementors r tr ++ metas_of tr ((t, meta) ∷ [])
push_one r t tr meta =
    ap (λ o. elim o [ none ↦ [] | some types ↦ types ])
      (get-alter t tr [] (λ metas. metas ++ meta ∷ []) r.trait_types)
    ∙ pushed (t == tr) (get tr r.trait_types)
  where
    pushed :
        (b : Bool) (o : Option (List InterfaceMetadata))
        → (elim (if b then some ((elim o [ some w ↦ w | none ↦ [] ]) ++ meta ∷ []) else o) [
          | none ↦ []
          | some types ↦ types
        ])
          ≡ (elim o [ none ↦ [] | some types ↦ types ]) ++ (if b then meta ∷ [] else [])
    pushed true none = refl
    pushed true (some w) = refl
    pushed false none = refl
    pushed false (some w) = sym (append-nil w)

metas_of-cons :
    (tr : TraitId) (x : TraitId × InterfaceMetadata) (ts : List (TraitId × InterfaceMetadata))
    → metas_of tr (x ∷ []) ++ metas_of tr ts ≡ metas_of tr (x ∷ ts)
metas_of-cons tr (t, meta) ts = elim (Bool-cases (t == tr)) [ inl e ↦ rw e | inr e ↦ rw e ]

push_traits-implementors :
    (ts : List (TraitId × InterfaceMetadata)) (r : Registry) (tr : TraitId)
    → implementors (push_traits ts r) tr ≡ implementors r tr ++ metas_of tr ts
unfolding push_traits
push_traits-implementors [] r tr = sym (append-nil _)
push_traits-implementors ((t, meta) ∷ rest) r tr =
    push_traits-implementors rest
      (record r { trait_types = alter t [] (λ metas. metas ++ meta ∷ []) r.trait_types }) tr
    ∙ ap (λ ms. ms ++ metas_of tr rest) (push_one r t tr meta)
    ∙ append_assoc (implementors r tr) (metas_of tr ((t, meta) ∷ [])) (metas_of tr rest)
    ∙ ap (λ ms. implementors r tr ++ ms) (metas_of-cons tr (t, meta) rest)

init_actor-implementors :
    (t : ActorType) (r m : Registry) (tr : TraitId)
    → init_actor r t ≡ returns (m, registered)
    → implementors m tr ≡ implementors r tr ++ metas_of tr t.traits
init_actor-implementors t r m tr h =
    let r' = record r { actor_types = insert t.vtable.type_id t.vtable r.actor_types } in
    ap (λ d. elim (get tr d) [ none ↦ [] | some types ↦ types ])
      (init_actor-Registers t r m h).traits
    ∙ push_traits-implementors t.traits r' tr

call-implementors :
    (node : ListNode) (nodes : List ListNode) (r m : Registry) (tr : TraitId)
    → call node r ≡ returns (m, registered)
    → implementors m tr ++ declared tr nodes ≡ implementors r tr ++ declared tr (node ∷ nodes)
unfolding call init_resource
call-implementors (actor t) nodes r m tr h =
    ap (λ ms. ms ++ declared tr nodes) (init_actor-implementors t r m tr h)
    ∙ append_assoc (implementors r tr) (metas_of tr t.traits) (declared tr nodes)
call-implementors (resource t f) nodes r m tr h =
    let kept : m.trait_types ≡ r.trait_types = ground arith in
    ap (λ d. (elim (get tr d) [ none ↦ [] | some types ↦ types ]) ++ declared tr nodes) kept

call_all-implementors :
    (nodes : List ListNode) (r r' : Registry) (tr : TraitId)
    → call_all nodes r ≡ returns r'
    → implementors r' tr ≡ implementors r tr ++ declared tr nodes
call_all-implementors [] r r' tr h =
    ap (λ x. implementors x tr) (sym (call_all-nil r r' h)) ∙ sym (append-nil _)
call_all-implementors (node ∷ nodes) r r' tr h =
    let (m, first, rest) = call_all-cons node nodes r r' h in
    call_all-implementors nodes m r' tr rest ∙ call-implementors node nodes r m tr first

pub get_registry-implementors :
    (nodes : List ListNode) (r : Registry) (tr : TraitId)
    → get_registry nodes ≡ returns r
    → implementors r tr ≡ declared tr nodes
unfolding get_registry
get_registry-implementors nodes r tr h = call_all-implementors nodes empty_registry r tr h

metas_of-mem :
    (tr : TraitId) (ts : List (TraitId × InterfaceMetadata)) (meta : InterfaceMetadata)
    → Memᴰ (tr, meta) ts
    → Memᴰ meta (metas_of tr ts)
metas_of-mem tr [] meta h = absurd (Memᴰ.not-nil h)
metas_of-mem tr ((t, m) ∷ ts) meta h = elim (Memᴰ.cases_cons h) [
  | inl e ↦
      let same : (t == tr) ≡ true = (==_iff t tr).1 (sym (ap (λ p. p.0) e)) in
      rw same (Memᴰ.head (ap (λ p. p.1) e))
  | inr after ↦
      let rest = metas_of-mem tr ts meta after in
      elim (Bool-cases (t == tr)) [ inl e ↦ rw e (Memᴰ.tail rest) | inr e ↦ rw e rest ]
]

mem-metas_of :
    (tr : TraitId) (ts : List (TraitId × InterfaceMetadata)) (meta : InterfaceMetadata)
    → Memᴰ meta (metas_of tr ts)
    → Memᴰ (tr, meta) ts
mem-metas_of tr [] meta h = absurd (Memᴰ.not-nil h)
mem-metas_of tr ((t, m) ∷ ts) meta h = elim (Bool-cases (t == tr)) [
  | inr e ↦ Memᴰ.tail (mem-metas_of tr ts meta (rw e at h))
  | inl e ↦
      let listed : Memᴰ meta (m ∷ metas_of tr ts) = rw e at h in
      elim (Memᴰ.cases_cons listed) [
        | inl q ↦ Memᴰ.head (λ i. (sym ((==_iff t tr).0 e) i, q i))
        | inr after ↦ Memᴰ.tail (mem-metas_of tr ts meta after)
      ]
]

pub declared-mem :
    (tr : TraitId) (nodes : List ListNode) (t : ActorType) (meta : InterfaceMetadata)
    → Memᴰ (actor t) nodes
    → Memᴰ (tr, meta) t.traits
    → Memᴰ meta (declared tr nodes)
declared-mem tr [] t meta m h = absurd (Memᴰ.not-nil m)
declared-mem tr (actor u ∷ nodes) t meta m h = elim (Memᴰ.cases_cons m) [
  | inl e ↦
      let same : t ≡ u = cc in
      Memᴰ.append_left (declared tr nodes)
        (metas_of-mem tr u.traits meta (subst (λ x. Memᴰ (tr, meta) x.traits) same h))
  | inr after ↦ Memᴰ.append_right (metas_of tr u.traits) (declared-mem tr nodes t meta after h)
]
declared-mem tr (resource u f ∷ nodes) t meta m h = elim (Memᴰ.cases_cons m) [
  | inl e ↦ cc
  | inr after ↦ declared-mem tr nodes t meta after h
]

pub mem-declared :
    (tr : TraitId) (nodes : List ListNode) (meta : InterfaceMetadata)
    → Memᴰ meta (declared tr nodes)
    → (t : ActorType) × Memᴰ (actor t) nodes × Memᴰ (tr, meta) t.traits
mem-declared tr [] meta h = absurd (Memᴰ.not-nil h)
mem-declared tr (actor u ∷ nodes) meta h = elim (Memᴰ.append_cases (metas_of tr u.traits) h) [
  | inl here ↦ (u, Memᴰ.head refl, mem-metas_of tr u.traits meta here)
  | inr after ↦ let (t, m, q) = mem-declared tr nodes meta after in (t, Memᴰ.tail m, q)
]
mem-declared tr (resource u f ∷ nodes) meta h =
    let (t, m, q) = mem-declared tr nodes meta h in (t, Memᴰ.tail m, q)
