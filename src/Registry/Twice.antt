-- ===== src/Registry/Twice.antt =====
-- Actors that share a name or a type are refused by `Registry::get` (registry.rs).
use dytor.Common.{◌≡◌, List, [], ◌∷◌, ◌++◌, some, returns, panics, panics_unless, inl, inr, ◌⊎◌}
use dytor.Common.Dict.{nat_eq, string_eq}
use dytor.Registry.{
  Registry, empty_registry, ActorType, ListNode, actor, call_all, get_registry, by_name,
}
use dytor.Registry.Found.{
  call-Registers, call_all-cons, call-kept, by_name-Registers, by_name-parts,
}

call_all-append :
    (front back : List ListNode) (r r' : Registry)
    → call_all (front ++ back) r ≡ returns r'
    → (m : Registry) × (call_all back m ≡ returns r')
call_all-append [] back r r' h = (r, h)
call_all-append (node ∷ front) back r r' h =
    let (m, p, q) = call_all-cons node (front ++ back) r r' h in call_all-append front back m r' q

-- A second actor cannot be registered while the first is found.
call_all-clash :
    (mid back : List ListNode) (t u : ActorType) (r r' : Registry)
    → (t.name ≡ u.name) ⊎ (t.vtable.type_id ≡ u.vtable.type_id)
    → by_name r t.name ≡ some (t.vtable.type_id, t.vtable)
    → call_all (mid ++ actor u ∷ back) r ≡ returns r'
    → ⊥
call_all-clash [] back t u r r' same b h =
    let (m, p, q) = call_all-cons (actor u) back r r' h in
    let g = call-Registers u r m p in
    let (x, y) = by_name-parts r t.name t.vtable.type_id t.vtable b in
    elim same [ inl e ↦ cc (rw e at x, g.new_name) | inr e ↦ cc (rw e at y, g.new_type) ]
call_all-clash (node ∷ mid) back t u r r' same b h =
    let (m, p, q) = call_all-cons node (mid ++ actor u ∷ back) r r' h in
    call_all-clash mid back t u m r' same (call-kept node r m t.name t.vtable.type_id t.vtable p b)
      q

-- If two of the queued actor types have the same name or the same type, wherever they stand, then
-- building the registry panics.
pub get_registry-twice :
    (front mid back : List ListNode) (t u : ActorType)
    → (t.name ≡ u.name) ⊎ (t.vtable.type_id ≡ u.vtable.type_id)
    → get_registry (front ++ (actor t ∷ (mid ++ actor u ∷ back))) ≡ panics
unfolding get_registry
get_registry-twice front mid back t u same = panics_unless _ λ r' h.
    let (a, later) =
      call_all-append front (actor t ∷ (mid ++ actor u ∷ back)) empty_registry r' h in
    let (m, p, q) = call_all-cons (actor t) (mid ++ actor u ∷ back) a r' later in
    call_all-clash mid back t u m r' same (by_name-Registers t a m (call-Registers t a m p)) q
