-- ===== src/Lookup/Groups.antt =====
-- A broadcast to the group of a query (lookup.rs, context.rs): what each context is sent.
use mathlib.Core.List.{append-nil, append_assoc}
use dytor.Common.{
  ◌≡◌, List, [], ◌∷◌, ◌++◌, refl, sym, ap, ◌∙◌, arith, ◌==◌, if◌then◌else◌, Bool-cases, inl, inr,
}
use dytor.Common.Dict.{nat_eq, Dict, alter}
use dytor.Arena.{Offset}
use dytor.Queue.{send}
use dytor.Context.{ContextId, ContextData, Msg, BroadcastGroup, route, broadcast}
use dytor.Lookup.{Found, group_into, broadcast_group}

-- The values that a map has under a key: one or none.
abbrev pub values_of : {V : Type 0} → ContextId → Dict ContextId V → List V
values_of c [] = []
values_of c ((k, v) ∷ d) = if k == c then v ∷ values_of c d else values_of c d

-- The order of an iteration: each entry is visited once.
pub record MapOrder (V : Type 0) : Type 0 where
  pub arrange : Dict ContextId V → Dict ContextId V
  pub same_entries :
      (c : ContextId) (d : Dict ContextId V) → values_of c (arrange d) ≡ values_of c d

-- The objects of a query that stand in context `c`, in the order of the query.
abbrev pub refs_in : {Meta : Type 0} → ContextId → Found Meta → List (Offset × Meta)
refs_in c [] = []
refs_in c ((id, key) ∷ found) =
    if key.loc.context_id == c
    then (key.loc.offset, key.meta) ∷ refs_in c found
    else refs_in c found

abbrev pub at_most_one : {A : Type 0} → List A → List (List A)
at_most_one [] = []
at_most_one (x ∷ xs) = (x ∷ xs) ∷ []

-- The messages that wait to be run in context `c` or to be sent there.
abbrev pub sent_to : {M : Type 0} → ContextId → List (ContextId × M) → List M
sent_to c [] = []
sent_to c ((k, m) ∷ rest) = if k == c then m ∷ sent_to c rest else sent_to c rest

abbrev pub mail : {M : Type 0} → ContextId → ContextData M → List M
mail c d = if d.id == c then d.local_queue else sent_to c d.unsent_messages

sent_to-append :
    {M : Type 0} (c : ContextId) (xs ys : List (ContextId × M))
    → sent_to c (xs ++ ys) ≡ sent_to c xs ++ sent_to c ys
sent_to-append c [] ys = refl
sent_to-append c ((k, m) ∷ xs) ys = ground (arith, sent_to-append c xs ys)

-- A message goes to the context that it is for, and to no other.
pub mail-route :
    {M : Type 0} (c to : ContextId) (d : ContextData M) (m : M)
    → mail c (route d to m) ≡ mail c d ++ (if to == c then m ∷ [] else [])
unfolding route send
mail-route c to d m = ground (
  arith,
  sent_to-append c d.unsent_messages ((to, m) ∷ []),
  append-nil d.local_queue,
  append-nil (sent_to c d.unsent_messages),
)

abbrev alter_first : {A : Type 0} → (List A → List A) → List (List A) → List (List A)
alter_first f [] = f [] ∷ []
alter_first f (x ∷ xs) = f x ∷ xs

values_of-alter :
    {A : Type 0} (c k : ContextId) (f : List A → List A) (d : Dict ContextId (List A))
    → values_of c (alter k [] f d)
      ≡ (if k == c then alter_first f (values_of c d) else values_of c d)
unfolding alter
values_of-alter c k f [] = ground arith
values_of-alter c k f ((j, v) ∷ d) = ground (arith, values_of-alter c k f d)

alter_first-push :
    {A : Type 0} (xs : List A) (x : A)
    → alter_first (λ ys. ys ++ x ∷ []) (at_most_one xs) ≡ at_most_one (xs ++ x ∷ [])
alter_first-push [] x = refl
alter_first-push (y ∷ xs) x = refl

module _ {Meta : Type 0} where
  group_into-values :
      (c : ContextId) (found : Found Meta) (d : Dict ContextId (List (Offset × Meta)))
      (xs : List (Offset × Meta))
      → values_of c d ≡ at_most_one xs
      → values_of c (group_into found d) ≡ at_most_one (xs ++ refs_in c found)
  unfolding group_into
  group_into-values c [] d xs e = rw (append-nil xs) e
  group_into-values c ((id, key) ∷ found) d xs e =
      let k = key.loc.context_id in
      let ref : Offset × Meta = (key.loc.offset, key.meta) in
      let d' = alter k [] (λ refs. refs ++ ref ∷ []) d in
      elim (Bool-cases (k == c)) [
        | inl here ↦
            let step : values_of c d' ≡ at_most_one (xs ++ ref ∷ []) =
              values_of-alter c k (λ refs. refs ++ ref ∷ []) d
              ∙ rw (here, e) (alter_first-push xs ref) in
            rw (here, ← append_assoc xs (ref ∷ []) (refs_in c found))
              (group_into-values c found d' (xs ++ ref ∷ []) step)
        | inr other ↦
            let step : values_of c d' ≡ at_most_one xs =
              values_of-alter c k (λ refs. refs ++ ref ∷ []) d ∙ rw other e in
            rw other (group_into-values c found d' xs step)
      ]

  module _ {F : Type 0} where
    -- One message for each entry.
    abbrev pub messages : F → List (List (Offset × Meta)) → List (Msg Meta F)
    messages f [] = []
    messages f (refs ∷ rest) = record { refs = refs; call = f } ∷ messages f rest

    mail-broadcast :
        (c : ContextId) (d : ContextData (Msg Meta F)) (g : BroadcastGroup Meta) (f : F)
        → mail c (broadcast d g f) ≡ mail c d ++ messages f (values_of c g)
    unfolding broadcast
    mail-broadcast c d [] f = sym (append-nil (mail c d))
    mail-broadcast c d ((k, refs) ∷ g) f =
        let m : Msg Meta F = record { refs = refs; call = f } in
        mail-broadcast c (route d k m) g f
        ∙ rw (mail-route c k d m) (elim (Bool-cases (k == c)) [
          | inl here ↦ rw here (append_assoc (mail c d) (m ∷ []) (messages f (values_of c g)))
          | inr other ↦ rw (other, append-nil (mail c d)) refl
        ])

    -- Whatever the order in which the map of the group is iterated, a broadcast to the group of a
    -- query leaves each context exactly one more message if objects of the query stand in it, and
    -- none otherwise: the message calls the function on those objects in the order of the query, and
    -- it stands behind what the context was sent before.
    pub broadcast-mail :
        (order : MapOrder (List (Offset × Meta))) (found : Found Meta) (c : ContextId)
        (d : ContextData (Msg Meta F)) (f : F)
        → mail c (broadcast d (broadcast_group order.arrange found) f)
          ≡ mail c d ++ messages f (at_most_one (refs_in c found))
    unfolding broadcast_group
    broadcast-mail order found c d f =
        mail-broadcast c d (order.arrange (group_into found [])) f
        ∙ ap (λ vs. mail c d ++ messages f vs)
            (order.same_entries c (group_into found []) ∙ group_into-values c found [] [] refl)
