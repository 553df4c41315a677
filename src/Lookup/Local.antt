-- ===== src/Lookup/Local.antt =====
-- The accessors and the local keys that a query of lookup.rs hands out.
use dytor.Common.{
  ℕ, suc, ◌+◌, ◌<◌, ◌≡◌, ◌≢◌, ◌↔◌, List, [], ◌∷◌, ◌++◌, Exec, returns, arith, refl, length, u32_mod,
  >>=-eq-returns,
}
use dytor.Context.{Key, ControlBlock, clone}
use dytor.Graph.{ActorId}
use dytor.Lookup.{
  Found, Accessor, AcyclicLocalKey, InitArgs, accessor_for_key, all_accessors, acyclic_local_key,
}

module _ {Meta : Type 0} where
  accessor_for_key-clone :
      (make_tx : List ℕ) (key : Key Meta) (b : ControlBlock) (x : Accessor Meta × ControlBlock)
      → accessor_for_key make_tx key b ≡ returns x
      → x.1 ≡ clone b
  unfolding accessor_for_key
  accessor_for_key-clone make_tx key b x h = ground arith

  count-cons :
      (found : Found Meta) (b b1 b2 b' : ControlBlock) (first : Accessor Meta)
      (rest accs : List (Accessor Meta))
      → b1 ≡ clone b
      → ◌≡◌ {A = Exec (List (Accessor Meta) × ControlBlock)}
          (returns (first ∷ rest, b2))
          (returns (accs, b'))
      → b.unhandled_events + suc (length found) < u32_mod
      → (b1.unhandled_events + length found < u32_mod
          → (b2.unhandled_events ≡ b1.unhandled_events + length found)
            × (length rest ≡ length found)
            × (b2.freed ≡ b1.freed))
      → (b'.unhandled_events ≡ b.unhandled_events + suc (length found))
        × (length accs ≡ suc (length found))
        × (b'.freed ≡ b.freed)
  count-cons found b b1 b2 b' first rest accs c e room ih = ground arith

  -- Every accessor that `all_accessors` makes adds one to the count of events, while that stays below
  -- 2^32, and there is one for each actor found.
  pub all_accessors-count :
      (make_tx : List ℕ) (found : Found Meta) (b b' : ControlBlock) (accs : List (Accessor Meta))
      → all_accessors make_tx found b ≡ returns (accs, b')
      → b.unhandled_events + length found < u32_mod
      → (b'.unhandled_events ≡ b.unhandled_events + length found)
        × (length accs ≡ length found)
        × (b'.freed ≡ b.freed)
  unfolding all_accessors
  all_accessors-count make_tx [] b b' accs h room = ground arith
  all_accessors-count make_tx ((id, key) ∷ found) b b' accs h room =
      let (x, p, q) = >>=-eq-returns (accessor_for_key make_tx key b) _ h in
      let (y, r, e) = >>=-eq-returns (all_accessors make_tx found x.1) _ q in
      count-cons found b x.1 y.1 b' x.0 y.0 accs (accessor_for_key-clone make_tx key b x p) e room
        (all_accessors-count make_tx found x.1 y.1 y.0 r)

  -- `acyclic_local_key` returns exactly when the query found one actor, in the context of the actor
  -- that asks, and another than that; the key leads to it, and the one relation that is added says
  -- that the asking actor depends on it.
  pub acyclic_local_key_iff :
      (found : Found Meta) (args args' : InitArgs) (k : AcyclicLocalKey Meta)
      → (acyclic_local_key found args ≡ returns (k, args')) ↔ (
          (id : ActorId) × (key : Key Meta) × (found ≡ (id, key) ∷ [])
          × (key.loc.context_id ≡ args.context_id)
          × (id ≢ args.actor_being_constructed)
          × (k ≡ record { offset = key.loc.offset; meta = key.meta })
          × (args' ≡ record args {
            dependence_relations =
                args.dependence_relations
                ++ record { from = args.actor_being_constructed; to = id } ∷ [];
          }))
  unfolding acyclic_local_key
  acyclic_local_key_iff [] args args' k = (λ h. absurd (cc), λ t. absurd (cc (t.2)))
  acyclic_local_key_iff ((id, key) ∷ x ∷ rest) args args' k =
      (λ h. absurd (cc), λ t. absurd (cc (t.2)))
  acyclic_local_key_iff ((id, key) ∷ []) args args' k = (
    λ h. (id, key, refl, ground arith, ground arith, ground arith, ground arith),
    λ t. ground arith,
  )
