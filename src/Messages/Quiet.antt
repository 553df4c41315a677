-- ===== src/Messages/Quiet.antt =====
-- What the loop over the local messages (`run_thread` of runtime/mod.rs) makes of the objects when the
-- code of the actors sends no messages.
use dytor.Common.{
  ℕ, zero, suc, ◌<◌, ◌≡◌, refl, sym, ◌∙◌, ap, arith, List, [], ◌∷◌, ◌++◌, some, inl, inr, length,
  length-append,
}
use dytor.Arena.{Arena, Offset, offset}
use dytor.Context.{Msg}
use dytor.Queue.Laws.{recv-cases}
use dytor.Messages.{ArgsCall, Thread, perform, call_each, call_on, drain_local}

module _ {Meta F S : Type 0} (code : F → ℕ → Meta → S → S × List (ArgsCall Meta F))
    (arena : Arena) where
  -- The objects after the function was called on each of the objects.
  abbrev pub each : F → List (Offset × Meta) → S → S
  each f [] s = s
  each f ((o, meta) ∷ refs) s = each f refs (code f (offset arena o) meta s).0

  -- The objects after the messages of a queue, the last first.
  abbrev pub objects_after : List (Msg Meta F) → S → S
  objects_after [] s = s
  objects_after (m ∷ ms) s = each m.call m.refs (objects_after ms s)

  pub objects_after-append :
      (ms ms' : List (Msg Meta F)) (s : S)
      → objects_after (ms ++ ms') s ≡ objects_after ms (objects_after ms' s)
  objects_after-append [] ms' s = refl
  objects_after-append (m ∷ ms) ms' s = ap (each m.call m.refs) (objects_after-append ms ms' s)

  module _ (quiet : (f : F) (ptr : ℕ) (meta : Meta) (s : S) → (code f ptr meta s).1 ≡ []) where
    call_each-each :
        (f : F) (refs : List (Offset × Meta)) (th : Thread Meta F S)
        → call_each code arena f refs th ≡ record th { objects = each f refs th.objects }
    unfolding perform
    call_each-each f [] th = refl
    call_each-each f ((o, meta) ∷ refs) th =
        let called : Thread Meta F S = record th {
          objects = (code f (offset arena o) meta th.objects).0;
        } in
        let one : call_on code arena f (o, meta) th ≡ called =
          ap (λ calls. record called { data_of = perform th.data_of calls })
            (quiet f (offset arena o) meta th.objects) in
        ap (call_each code arena f refs) one ∙ call_each-each f refs called

    -- The loop ends, with an empty queue, and has run the last message first.
    pub drain_local-objects_after :
        (fuel : ℕ) (th : Thread Meta F S)
        → length th.data_of.local_queue < fuel
        → drain_local code arena fuel th
          ≡ some (record th {
            data_of = record (th.data_of) { local_queue = [] };
            objects = objects_after th.data_of.local_queue th.objects;
          })
    unfolding drain_local dytor.Queue.recv
    drain_local-objects_after zero th h = absurd (omega arith)
    drain_local-objects_after (suc fuel) th h = elim (recv-cases th.data_of.local_queue) [
      | inl (empty, e) ↦
          let same : th.objects ≡ objects_after th.data_of.local_queue th.objects =
            sym (ap (λ l. objects_after l th.objects) empty) in
          rw (drain_local, e)
            (λ i. some (record th {
              data_of = record (th.data_of) { local_queue = empty i };
              objects = same i;
            }))
      | inr (m, rest, q, e) ↦
          let taken : Thread Meta F S = record th {
            data_of = record (th.data_of) { local_queue = rest };
          } in
          let next : Thread Meta F S = record taken { objects = each m.call m.refs th.objects } in
          let shorter : length rest < fuel =
            omega (arith, ap length q, length-append rest (m ∷ [])) in
          let after : objects_after th.data_of.local_queue th.objects
              ≡ objects_after rest (each m.call m.refs th.objects) =
            ap (λ l. objects_after l th.objects) q
            ∙ objects_after-append rest (m ∷ []) th.objects in
          rw (drain_local, e)
            (ap (drain_local code arena fuel) (call_each-each m.call m.refs taken)
              ∙ drain_local-objects_after fuel next shorter
              ∙ ap
                  (λ o. some (record next {
                    data_of = record (th.data_of) { local_queue = [] };
                    objects = o;
                  }))
                  (sym after))
    ]
