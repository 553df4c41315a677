-- ===== src/Messages/Each.antt =====
-- A broadcast (context.rs) against messages to each of the actors.
use mathlib.Core.List.{append_assoc, append-nil, reverse, reverse-append}
use dytor.Common.{
  ℕ, suc, ◌≤◌, ◌<◌, some, arith, ap, length, length-append, ==_refl, ◌≡◌, refl, sym, ◌∙◌, List, [],
  ◌∷◌, ◌++◌, Bool-cases, inl, inr, ◌==◌,
}
use dytor.Arena.{Arena, Offset}
use dytor.Context.{ContextId, ContextData, Msg, BroadcastGroup, route, send_msg, broadcast}
use dytor.Lookup.{Found, broadcast_group}
use dytor.Lookup.Groups.{MapOrder, refs_in, at_most_one, mail, messages, mail-route, broadcast-mail}
use dytor.Messages.{ArgsCall, Thread, drain_local}
use dytor.Messages.Quiet.{each, objects_after, objects_after-append, drain_local-objects_after}

module _ {Meta F : Type 0} where
  -- `send_msg` to each actor that a query found.
  unfoldable pub send_each : ContextData (Msg Meta F) → Found Meta → F → ContextData (Msg Meta F)
  send_each d [] f = d
  send_each d ((id, key) ∷ found) f = send_each (send_msg d key f) found f

  -- A message for each object.
  abbrev pub singles : F → List (Offset × Meta) → List (Msg Meta F)
  singles f [] = []
  singles f (ref ∷ refs) = record { refs = ref ∷ []; call = f } ∷ singles f refs

  mail-send_each :
      (c : ContextId) (d : ContextData (Msg Meta F)) (found : Found Meta) (f : F)
      → mail c (send_each d found f) ≡ mail c d ++ singles f (refs_in c found)
  unfolding send_each send_msg
  mail-send_each c d [] f = sym (append-nil (mail c d))
  mail-send_each c d ((id, key) ∷ found) f =
      let to = key.loc.context_id in
      let m : Msg Meta F = record { refs = (key.loc.offset, key.meta) ∷ []; call = f } in
      mail-send_each c (send_msg d key f) found f
      ∙ rw (mail-route c to d m) (elim (Bool-cases (to == c)) [
        | inl here ↦ rw here (append_assoc (mail c d) (m ∷ []) (singles f (refs_in c found)))
        | inr other ↦ rw (other, append-nil (mail c d)) refl
      ])

  pub length-messages :
      (f : F) (refs : List (Offset × Meta)) → length (messages f (at_most_one refs)) ≤ 1
  length-messages f [] = omega arith
  length-messages f (ref ∷ refs) = omega arith

  singles-append :
      (f : F) (refs refs' : List (Offset × Meta))
      → singles f (refs ++ refs') ≡ singles f refs ++ singles f refs'
  singles-append f [] refs' = refl
  singles-append f (ref ∷ refs) refs' =
      ap (λ ms. record { refs = ref ∷ []; call = f } ∷ ms) (singles-append f refs refs')

  length-singles : (f : F) (refs : List (Offset × Meta)) → length (singles f refs) ≡ length refs
  length-singles f [] = refl
  length-singles f (ref ∷ refs) = omega (arith, length-singles f refs)

  pub broadcast-id :
      (d : ContextData (Msg Meta F)) (g : BroadcastGroup Meta) (f : F) → (broadcast d g f).id ≡ d.id
  unfolding broadcast route
  broadcast-id d [] f = refl
  broadcast-id d ((id, refs) ∷ g) f = elim (Bool-cases (d.id == id)) [
    | inl here ↦ broadcast-id (route d id (record { refs = refs; call = f })) g f ∙ rw here refl
    | inr other ↦ broadcast-id (route d id (record { refs = refs; call = f })) g f ∙ rw other refl
  ]

  send_each-id :
      (d : ContextData (Msg Meta F)) (found : Found Meta) (f : F) → (send_each d found f).id ≡ d.id
  unfolding send_each send_msg route
  send_each-id d [] f = refl
  send_each-id d ((id, key) ∷ found) f = elim (Bool-cases (d.id == key.loc.context_id)) [
    | inl here ↦ send_each-id (send_msg d key f) found f ∙ rw here refl
    | inr other ↦ send_each-id (send_msg d key f) found f ∙ rw other refl
  ]

  -- In its own context, a queue that was empty has the messages that were sent.
  pub mail-own :
      (d sent : ContextData (Msg Meta F)) (ms : List (Msg Meta F))
      → sent.id ≡ d.id
      → d.local_queue ≡ []
      → mail d.id sent ≡ mail d.id d ++ ms
      → sent.local_queue ≡ ms
  mail-own d sent ms same empty e =
      let h : sent.local_queue ≡ d.local_queue ++ ms = rw (same, ==_refl d.id) at e in
      h ∙ ap (λ q. q ++ ms) empty

module _ {Meta : Type 0} where
  refs_in-append :
      (c : ContextId) (found found' : Found Meta)
      → refs_in c (found ++ found') ≡ refs_in c found ++ refs_in c found'
  refs_in-append c [] found' = refl
  refs_in-append c ((id, key) ∷ found) found' = ground (arith, refs_in-append c found found')

  length-refs_in : (c : ContextId) (found : Found Meta) → length (refs_in c found) ≤ length found
  length-refs_in c [] = omega arith
  length-refs_in c ((id, key) ∷ found) = ground (arith, length-refs_in c found)

length-reverse : {A : Type 0} (xs : List A) → length (reverse xs) ≡ length xs
length-reverse [] = refl
length-reverse (x ∷ xs) =
    ap length (reverse-append (x ∷ []) xs)
    ∙ omega (arith, length-append (reverse xs) (x ∷ []), length-reverse xs)

module _ {Meta F S : Type 0} (code : F → ℕ → Meta → S → S × List (ArgsCall Meta F))
    (arena : Arena) where
  -- The last message runs first.
  objects_after-singles :
      (c : ContextId) (f : F) (found : Found Meta) (s : S)
      → objects_after code arena (singles f (refs_in c (reverse found))) s
        ≡ each code arena f (refs_in c found) s
  objects_after-singles c f [] s = refl
  objects_after-singles c f ((id, key) ∷ found) s =
      let last : Found Meta = (id, key) ∷ [] in
      ap (λ ks. objects_after code arena (singles f (refs_in c ks)) s) (reverse-append last found)
      ∙ ap (λ refs. objects_after code arena (singles f refs) s)
          (refs_in-append c (reverse found) last)
      ∙ ap (λ ms. objects_after code arena ms s)
          (singles-append f (refs_in c (reverse found)) (refs_in c last))
      ∙ objects_after-append code arena (singles f (refs_in c (reverse found)))
          (singles f (refs_in c last)) s
      ∙ objects_after-singles c f found (objects_after code arena (singles f (refs_in c last)) s)
      ∙ elim (Bool-cases (key.loc.context_id == c)) [
        | inl here ↦ rw here refl
        | inr other ↦ rw other refl
      ]

  pub objects_after-messages :
      (f : F) (refs : List (Offset × Meta)) (s : S)
      → objects_after code arena (messages f (at_most_one refs)) s ≡ each code arena f refs s
  objects_after-messages f [] s = refl
  objects_after-messages f (ref ∷ refs) s = refl

  -- If the code of the actors sends no messages and the local queue is empty, then with fuel for each
  -- actor that a query found and two rounds more, the loop over the local messages ends after a
  -- broadcast to the query's group, whatever the iteration order of the map, and after a message to
  -- each actor found, the last one first. Either leaves the queue empty, and the objects as the function
  -- leaves them when it is called on each actor found of the own context, in the order of the query.
  pub broadcast-each :
      (quiet : (f : F) (ptr : ℕ) (meta : Meta) (s : S) → (code f ptr meta s).1 ≡ [])
      (order : MapOrder (List (Offset × Meta))) (found : Found Meta) (d : ContextData (Msg Meta F))
      (f : F) (s : S) (fuel : ℕ)
      → d.local_queue ≡ []
      → suc (length found) < fuel
      → (th th' : Thread Meta F S) × (drain_local code arena fuel
            (record { data_of = broadcast d (broadcast_group order.arrange found) f; objects = s })
          ≡ some th)
        × (drain_local code arena fuel
              (record { data_of = send_each d (reverse found) f; objects = s })
            ≡ some th')
        × (th.data_of.local_queue ≡ [])
        × (th'.data_of.local_queue ≡ [])
        × (th.objects ≡ each code arena f (refs_in d.id found) s)
        × (th'.objects ≡ each code arena f (refs_in d.id found) s)
  broadcast-each quiet order found d f s fuel empty enough =
      let b = broadcast d (broadcast_group order.arrange found) f in
      let e = send_each d (reverse found) f in
      let refs = refs_in d.id found in
      let refs' = refs_in d.id (reverse found) in
      let q : b.local_queue ≡ messages f (at_most_one refs) =
        mail-own d b _ (broadcast-id d (broadcast_group order.arrange found) f) empty
          (broadcast-mail order found d.id d f) in
      let q' : e.local_queue ≡ singles f refs' =
        mail-own d e _ (send_each-id d (reverse found) f) empty
          (mail-send_each d.id d (reverse found) f) in
      let few : length b.local_queue < fuel =
        omega (arith, ap length q, length-messages f refs, enough) in
      let few' : length e.local_queue < fuel = omega (
        arith,
        ap length q',
        length-singles f refs',
        length-refs_in d.id (reverse found),
        length-reverse found,
        enough,
      ) in
      (
        _,
        _,
        drain_local-objects_after code arena quiet fuel (record { data_of = b; objects = s }) few,
        drain_local-objects_after code arena quiet fuel (record { data_of = e; objects = s }) few',
        refl,
        refl,
        ap (λ ms. objects_after code arena ms s) q ∙ objects_after-messages f refs s,
        ap (λ ms. objects_after code arena ms s) q' ∙ objects_after-singles d.id f found s,
      )
