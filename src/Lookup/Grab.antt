-- ===== src/Lookup/Grab.antt =====
-- The implementations of `Grab` in crates/core/dytor/src/context.rs: one key, or tuples that the macro
-- `generate_impl!` makes for up to 26 parts.
use mathlib.Core.List.Memᴰ
use dytor.Common.{
  ℕ, ◌≡◌, ◌↔◌, refl, sym, ap, ◌∙◌, arith, [], ◌∷◌, Memᴰ, Exec, returns, ◌>>=◌, >>=-eq-returns,
  length,
}
use dytor.Context.{Key}
use dytor.Graph.{ActorId}
use dytor.Lookup.{ActorTree, Found, lookup_type, lookup_trait, exactly_one_key}
use dytor.Registry.{TypeId, TraitId, Registry}

-- The type that is asked for: the key of an actor type, the key of a trait, or a tuple, of its first
-- part and the rest.
pub data Wanted : Type 0 where
  type_key : TypeId → Wanted
  trait_key : TraitId → Wanted
  end : Wanted
  part : Wanted → Wanted → Wanted

-- The values of such a type.
abbrev pub Grabbed : Wanted → Type 0
Grabbed (type_key t) = Key (Unit {0})
Grabbed (trait_key t) = Key ℕ
Grabbed end = Unit
Grabbed (part w ws) = Grabbed w × Grabbed ws

-- `Grab::grab`
unfoldable pub grab : Registry → ActorTree → (w : Wanted) → Exec (Grabbed w)
unfolding exactly_one_key lookup_type lookup_trait
grab r tree (type_key t) = exactly_one_key (lookup_type t tree)
grab r tree (trait_key t) = exactly_one_key (lookup_trait r t tree)
grab r tree end = returns tt
grab r tree (part w ws) = do first ← grab r tree w; rest ← grab r tree ws; returns (first, rest)

-- The only actor that a query finds.
abbrev pub IsOnly : {Meta : Type 0} → Found Meta → Key Meta → Type 0
IsOnly found key = (length found ≡ 1) × ((id : ActorId) × Memᴰ (id, key) found)

abbrev pub Grabs : Registry → ActorTree → (w : Wanted) → Grabbed w → Type 0
Grabs r tree (type_key t) key = IsOnly (lookup_type t tree) key
Grabs r tree (trait_key t) key = IsOnly (lookup_trait r t tree) key
Grabs r tree end v = Unit
Grabs r tree (part w ws) v = Grabs r tree w v.0 × Grabs r tree ws v.1

exactly_one_key_iff :
    {Meta : Type 0} (found : Found Meta) (key : Key Meta)
    → (exactly_one_key found ≡ returns key) ↔ IsOnly found key
unfolding exactly_one_key
exactly_one_key_iff [] key = (λ h. absurd (cc), λ t. absurd (omega (arith, t.0)))
exactly_one_key_iff (x ∷ y ∷ found) key = (λ h. absurd (cc), λ t. absurd (omega (arith, t.0)))
exactly_one_key_iff ((id, k) ∷ []) key = (
  λ h. let same : key ≡ k = cc in (refl, (id, Memᴰ.head (ap (λ x. (id, x)) same))),
  λ t. ap returns (sym (ap (λ p. p.1) (Memᴰ.eq_of_singleton t.1.1))),
)

-- `grab` returns a key, or a tuple of keys however it is nested, exactly when for each part one actor
-- of the type, or with a type that implements the trait, is in the tree, and no other, and the key is
-- that actor's.
pub grab_iff :
    (r : Registry) (tree : ActorTree) (w : Wanted) (v : Grabbed w)
    → (grab r tree w ≡ returns v) ↔ Grabs r tree w v
unfolding grab
grab_iff r tree (type_key t) v = exactly_one_key_iff (lookup_type t tree) v
grab_iff r tree (trait_key t) v = exactly_one_key_iff (lookup_trait r t tree) v
grab_iff r tree end v = (λ h. tt, λ h. refl)
grab_iff r tree (part w ws) v = (
  λ h.
      let (first, p, q) = >>=-eq-returns (grab r tree w) _ h in
      let (rest, p', q') = >>=-eq-returns (grab r tree ws) _ q in
      let e : (first, rest) ≡ v = cc in
      (
        (grab_iff r tree w v.0).0 (p ∙ ap returns (ap (λ x. x.0) e)),
        (grab_iff r tree ws v.1).0 (p' ∙ ap returns (ap (λ x. x.1) e)),
      ),
  λ t. rw ((grab_iff r tree w v.0).1 t.0, (grab_iff r tree ws v.1).1 t.1) refl,
)
