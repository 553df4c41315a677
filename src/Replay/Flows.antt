-- ===== src/Replay/Flows.antt =====
-- What the steps of Replay.Producer do to one producer: its events and the boxes that hold them.
use mathlib.Core.List.{append_assoc, append-nil}
use dytor.Common.{
  ℕ, ◌+◌, ◌≡◌, ◌≢◌, refl, sym, ◌∙◌, ap, subst, List, [], ◌∷◌, ◌++◌, none, some, times, update,
  update_self, update_other,
}
use dytor.Replay.{Event}
use dytor.Replay.Boxes.{UntypedBox, Boxes, leak_event}
use dytor.Replay.Producer.{Flow}
use dytor.Replay.Unboxed.{
  Holds, AllHold, addresses, AllHold-elsewhere, AllHold-unused, AllHold-snoc, times-snoc,
}
use dytor.Replay.Transit.{entry_list, in_transit, IsWhole, uses}

module _ {Item : ℕ → Type 0} where
  -- The flow after its stream yielded an event, and after the event of its entry was sent.
  abbrev pub taken :
      {τ : ℕ}
      → Boxes Item
      → Flow Item τ
      → UntypedBox
      → Event (Item τ)
      → List (Event (Item τ))
      → Flow Item τ
  taken {τ} boxes f a ev rest = record f {
    stream = rest;
    entry = some (leak_event Item τ boxes a ev).0;
  }

  abbrev pub sent_on : {τ : ℕ} → Flow Item τ → Event UntypedBox → Flow Item τ
  sent_on f e = record f { entry = none; sent = f.sent ++ e ∷ [] }

  pub uses-taken :
      {τ : ℕ} (boxes : Boxes Item) (f : Flow Item τ) (a : UntypedBox) (ev : Event (Item τ))
      (rest : List (Event (Item τ))) (x : UntypedBox)
      → f.entry ≡ none
      → uses (taken boxes f a ev rest) x ≡ uses f x + times x (a ∷ [])
  unfolding leak_event
  uses-taken {τ} boxes f a ev rest x e =
      times-snoc x (leak_event Item τ boxes a ev).0 f.sent
      ∙ ap (λ o. times x (addresses (f.sent ++ entry_list o)) + times x (a ∷ [])) (sym e)

  pub uses-sent_on :
      {τ : ℕ} (f : Flow Item τ) (e : Event UntypedBox) (x : UntypedBox)
      → f.entry ≡ some e
      → uses (sent_on f e) x ≡ uses f x
  uses-sent_on f e x h =
      ap (λ es. times x (addresses es)) (append-nil (f.sent ++ e ∷ []))
      ∙ ap (λ o. times x (addresses (f.sent ++ entry_list o))) (sym h)

  pub IsWhole-taken :
      (boxes : Boxes Item) {τ : ℕ} (stream : List (Event (Item τ))) (f : Flow Item τ)
      (a : UntypedBox) (ev : Event (Item τ)) (rest : List (Event (Item τ)))
      → f.stream ≡ ev ∷ rest
      → f.entry ≡ none
      → boxes a ≡ none
      → IsWhole boxes stream f
      → IsWhole (leak_event Item τ boxes a ev).1 stream (taken boxes f a ev rest)
  unfolding leak_event
  IsWhole-taken boxes {τ} stream f a ev rest left e free (evs, all, whole) =
      let boxes' : Boxes Item = (leak_event Item τ boxes a ev).1 in
      let same : (x : UntypedBox) → x ≢ a → boxes' x ≡ boxes x =
        λ x ne. update_other boxes a x _ (λ q. ne (sym q)) in
      let sent = subst (λ o. AllHold boxes τ (f.sent ++ entry_list o) evs) e all in
      let unused = AllHold-unused boxes τ a free (f.sent ++ []) evs sent in
      (
        evs ++ ev ∷ [],
        AllHold-snoc boxes' τ (leak_event Item τ boxes a ev).0 ev
            (update_self boxes a _, refl, refl) f.sent evs
            (AllHold-elsewhere boxes boxes' τ a same (f.sent ++ []) evs unused sent),
        whole
            ∙ ap (λ vs. f.processed ++ evs ++ vs) left
            ∙ sym (append_assoc (f.processed ++ evs) (ev ∷ []) rest)
            ∙ ap (λ vs. vs ++ rest) (append_assoc f.processed evs (ev ∷ [])),
      )

  pub IsWhole-sent_on :
      (boxes : Boxes Item) {τ : ℕ} (stream : List (Event (Item τ))) (f : Flow Item τ)
      (e : Event UntypedBox)
      → f.entry ≡ some e
      → IsWhole boxes stream f
      → IsWhole boxes stream (sent_on f e)
  IsWhole-sent_on boxes {τ} stream f e h (evs, all, whole) = (
    evs,
    subst (λ es. AllHold boxes τ es evs) (sym (append-nil (f.sent ++ e ∷ [])))
        (subst (λ o. AllHold boxes τ (f.sent ++ entry_list o) evs) h all),
    whole,
  )

  abbrev pub handled :
      {τ : ℕ} → Flow Item τ → List (Event UntypedBox) → Event (Item τ) → Flow Item τ
  handled f rest ev = record f { sent = rest; processed = f.processed ++ ev ∷ [] }

  pub uses-handled :
      {τ : ℕ} (f : Flow Item τ) (e : Event UntypedBox) (rest : List (Event UntypedBox))
      (ev : Event (Item τ)) (x : UntypedBox)
      → f.sent ≡ e ∷ rest
      → uses f x ≡ times x (e.obj ∷ addresses (in_transit (handled f rest ev)))
  uses-handled f e rest ev x h = ap (λ es. times x (addresses (es ++ entry_list f.entry))) h

  -- What the head of the queue holds: the next event of the stream.
  pub IsWhole-head :
      (boxes : Boxes Item) {τ : ℕ} (stream : List (Event (Item τ))) (f : Flow Item τ)
      (e : Event UntypedBox) (rest : List (Event UntypedBox))
      → f.sent ≡ e ∷ rest
      → IsWhole boxes stream f
      → (v : Event (Item τ)) × Holds boxes τ e v
        × (times e.obj (addresses (rest ++ entry_list f.entry)) ≡ 0
            → IsWhole (update boxes e.obj none) stream (handled f rest v))
  IsWhole-head boxes {τ} stream f e rest h (evs, all, whole) =
      head evs (subst (λ es. AllHold boxes τ (es ++ entry_list f.entry) evs) h all) whole
    where
      head :
          (evs : List (Event (Item τ)))
          → AllHold boxes τ (e ∷ (rest ++ entry_list f.entry)) evs
          → stream ≡ f.processed ++ evs ++ f.stream
          → (v : Event (Item τ)) × Holds boxes τ e v
            × (times e.obj (addresses (rest ++ entry_list f.entry)) ≡ 0
                → IsWhole (update boxes e.obj none) stream (handled f rest v))
      head [] all whole = absurd all
      head (v ∷ vs) (now, after) whole = (
        v,
        now,
        λ unused. (
          vs,
          AllHold-elsewhere boxes (update boxes e.obj none) τ e.obj
              (λ x ne. update_other boxes e.obj x none (λ q. ne (sym q)))
              (rest ++ entry_list f.entry) vs unused after,
          whole ∙ ap (λ us. us ++ f.stream) (sym (append_assoc f.processed (v ∷ []) vs)),
        ),
      )

  pub IsWhole-at :
      {boxes boxes' : Boxes Item} {τ : ℕ} (stream : List (Event (Item τ))) {f f' : Flow Item τ}
      → boxes' ≡ boxes
      → f' ≡ f
      → IsWhole boxes stream f
      → IsWhole boxes' stream f'
  IsWhole-at {boxes} {boxes'} stream {f} {f'} b e whole =
      subst (λ g. IsWhole boxes' stream g) (sym e) (subst (λ m. IsWhole m stream f) (sym b) whole)
