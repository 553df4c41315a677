-- ===== src/Registry/Constructors.antt =====
-- The constructors of resources in the registry that `Registry::get` (registry.rs) built.
use mathlib.Core.List.Memᴰ
use dytor.Common.{
  ℕ, ◌≡◌, refl, ◌∙◌, ap, subst, arith, true, false, List, [], ◌∷◌, Memᴰ, none, some, returns,
  Option-cases, Bool-cases, inl, inr, ◌⊎◌, ◌==◌, ==_iff, ==_refl, if◌then◌else◌,
}
use dytor.Common.Dict.{nat_eq, get, insert, get-insert}
use dytor.Registry.{
  TypeId, Registry, registered, init_resource, ListNode, actor, resource, call, call_all,
}
use dytor.Registry.Found.{init_actor-Registers, call_all-cons, call_all-nil}

-- The registry's constructors of resources, after the nodes were called.
call-inserts :
    (t : TypeId) (f : ℕ) (r m : Registry)
    → call (resource t f) r ≡ returns (m, registered)
    → (get t r.resource_constructors ≡ none)
      × (m.resource_constructors ≡ insert t f r.resource_constructors)
unfolding call init_resource
call-inserts t f r m h = elim (Option-cases (get t r.resource_constructors)) [
  | inl e ↦ (e, ground arith)
  | inr (g, e) ↦ absurd (ground arith)
]

call-constructor :
    (node : ListNode) (r m : Registry) (t : TypeId) (f : ℕ)
    → call node r ≡ returns (m, registered)
    → get t r.resource_constructors ≡ some f
    → get t m.resource_constructors ≡ some f
unfolding call init_resource
call-constructor (actor a) r m t f h e = ap (get t) (init_actor-Registers a r m h).resources ∙ e
call-constructor (resource u g) r m t f h e =
    let (new, kept) = call-inserts u g r m h in
    ap (get t) kept ∙ get-insert u t g r.resource_constructors ∙ other (Bool-cases (u == t)) new
  where
    other :
        ((u == t) ≡ true) ⊎ ((u == t) ≡ false)
        → get u r.resource_constructors ≡ none
        → (if u == t then some g else get t r.resource_constructors) ≡ some f
    other (inr apart) new = rw apart e
    other (inl same) new =
        let found : get u r.resource_constructors ≡ some f =
          ap (λ k. get k r.resource_constructors) ((==_iff u t).0 same) ∙ e in
        cc

call-resource :
    (t : TypeId) (f : ℕ) (r m : Registry)
    → call (resource t f) r ≡ returns (m, registered)
    → get t m.resource_constructors ≡ some f
unfolding call init_resource
call-resource t f r m h =
    ap (get t) (call-inserts t f r m h).1
    ∙ get-insert t t f r.resource_constructors
    ∙ rw (==_refl t) refl

call_all-constructor :
    (nodes : List ListNode) (r r' : Registry) (t : TypeId) (f : ℕ)
    → call_all nodes r ≡ returns r'
    → get t r.resource_constructors ≡ some f
    → get t r'.resource_constructors ≡ some f
call_all-constructor [] r r' t f h e =
    subst (λ x. get t x.resource_constructors ≡ some f) (call_all-nil r r' h) e
call_all-constructor (node ∷ nodes) r r' t f h e =
    let (m, first, rest) = call_all-cons node nodes r r' h in
    call_all-constructor nodes m r' t f rest (call-constructor node r m t f first e)

pub call_all-resource :
    (nodes : List ListNode) (r r' : Registry) (t : TypeId) (f : ℕ)
    → call_all nodes r ≡ returns r'
    → Memᴰ (resource t f) nodes
    → get t r'.resource_constructors ≡ some f
call_all-resource [] r r' t f h k = absurd (Memᴰ.not-nil k)
call_all-resource (node ∷ nodes) r r' t f h k =
    let (m, first, rest) = call_all-cons node nodes r r' h in
    elim (Memᴰ.cases_cons k) [
      | inl e ↦ call_all-constructor nodes m r' t f rest (call-resource t f r m (rw e first))
      | inr after ↦ call_all-resource nodes m r' t f rest after
    ]
