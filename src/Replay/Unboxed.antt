-- ===== src/Replay/Unboxed.antt =====
-- The boxes of replay/src/producer.rs: every event that is sent comes out of its box as it went in.
use std.HLevel.{hedberg}
use std.Path.{subst_refl}
use dytor.Common.{
  ℕ, ◌+◌, ◌≡◌, ◌≢◌, refl, ◌∙◌, ap, subst, arith, List, [], ◌∷◌, ◌++◌, map, none, some, returns,
  panics, times, update, ℕ_discrete,
}
use dytor.Replay.{Event}
use dytor.Replay.Boxes.{UntypedBox, Boxes, read_as, from_raw, unbox_event}

-- A value read at the type that it was boxed for.
read_same :
    (Item : ℕ → Type 0) (τ : ℕ) (v : Item τ) (d : Dec (τ ≡ τ))
    → (elim d [ yes e ↦ returns (subst Item e v) | no _ ↦ panics ]) ≡ returns v
read_same Item τ v (yes e) =
    ap returns (ap (λ p. subst Item p v) (hedberg ℕ_discrete τ τ e refl) ∙ subst_refl Item v)
read_same Item τ v (no ne) = absurd (ne refl)

read_as-same :
    (Item : ℕ → Type 0) (τ : ℕ) (v : Item τ)
    → read_as Item τ (some (record { item_type = τ; value = v })) ≡ returns v
read_as-same Item τ v = read_same Item τ v (ℕ_discrete τ τ)

-- The addresses of the boxes of events.
abbrev pub addresses : List (Event UntypedBox) → List UntypedBox
addresses es = map (λ e. e.obj) es

module _ {Item : ℕ → Type 0} where
  -- The event's box is in use and holds the item of the other event, with the same times.
  abbrev pub Holds : Boxes Item → (τ : ℕ) → Event UntypedBox → Event (Item τ) → Type 0
  Holds boxes τ e ev =
      (boxes e.obj ≡ some (record { item_type = τ; value = ev.obj }))
      × (e.timestamp ≡ ev.timestamp)
      × (e.tie_break ≡ ev.tie_break)

  abbrev pub AllHold :
      Boxes Item → (τ : ℕ) → List (Event UntypedBox) → List (Event (Item τ)) → Type 0
  AllHold boxes τ [] [] = Unit
  AllHold boxes τ (e ∷ es) (ev ∷ evs) = Holds boxes τ e ev × AllHold boxes τ es evs
  AllHold boxes τ _ _ = ⊥

  pub unbox_event-Holds :
      (boxes : Boxes Item) (τ : ℕ) (e : Event UntypedBox) (ev : Event (Item τ))
      → Holds boxes τ e ev
      → unbox_event Item τ boxes e ≡ returns (ev, update boxes e.obj none)
  unfolding unbox_event from_raw
  unbox_event-Holds boxes τ e ev (b, t, tie) = rw (b, read_as-same Item τ ev.obj, t, tie)

  -- A box that none of the events has may change.
  pub AllHold-elsewhere :
      (boxes boxes' : Boxes Item) (τ : ℕ) (a : UntypedBox)
      → ((x : UntypedBox) → x ≢ a → boxes' x ≡ boxes x)
      → (es : List (Event UntypedBox)) (evs : List (Event (Item τ))) → times a (addresses es) ≡ 0
      → AllHold boxes τ es evs
      → AllHold boxes' τ es evs
  AllHold-elsewhere boxes boxes' τ a same [] [] h all = all
  AllHold-elsewhere boxes boxes' τ a same (e ∷ es) (ev ∷ evs) h (now, all) =
      let ne : e.obj ≢ a = ground arith in
      let rest : times a (addresses es) ≡ 0 = ground arith in
      (
        (same e.obj ne ∙ now.0, now.1, now.2),
        AllHold-elsewhere boxes boxes' τ a same es evs rest all,
      )
  AllHold-elsewhere boxes boxes' τ a same [] (ev ∷ evs) h all = absurd all
  AllHold-elsewhere boxes boxes' τ a same (e ∷ es) [] h all = absurd all

  -- A box that is not in use is none of theirs.
  pub AllHold-unused :
      (boxes : Boxes Item) (τ : ℕ) (a : UntypedBox)
      → boxes a ≡ none
      → (es : List (Event UntypedBox)) (evs : List (Event (Item τ))) → AllHold boxes τ es evs
      → times a (addresses es) ≡ 0
  AllHold-unused boxes τ a free [] evs all = refl
  AllHold-unused boxes τ a free (e ∷ es) (ev ∷ evs) (now, all) =
      let held = now.0 in
      let ne : e.obj ≢ a = λ q. cc in ground (arith, AllHold-unused boxes τ a free es evs all)
  AllHold-unused boxes τ a free (e ∷ es) [] all = absurd all

  pub AllHold-snoc :
      (boxes : Boxes Item) (τ : ℕ) (x : Event UntypedBox) (v : Event (Item τ))
      → Holds boxes τ x v
      → (es : List (Event UntypedBox)) (evs : List (Event (Item τ)))
      → AllHold boxes τ (es ++ []) evs
      → AllHold boxes τ (es ++ x ∷ []) (evs ++ v ∷ [])
  AllHold-snoc boxes τ x v h [] [] all = (h, tt)
  AllHold-snoc boxes τ x v h (e ∷ es) (ev ∷ evs) (now, all) =
      (now, AllHold-snoc boxes τ x v h es evs all)
  AllHold-snoc boxes τ x v h [] (ev ∷ evs) all = absurd all
  AllHold-snoc boxes τ x v h (e ∷ es) [] all = absurd all

pub times-snoc :
    (a : UntypedBox) (x : Event UntypedBox) (es : List (Event UntypedBox))
    → times a (addresses (es ++ x ∷ [])) ≡ times a (addresses (es ++ [])) + times a (x.obj ∷ [])
times-snoc a x [] = omega arith
times-snoc a x (e ∷ es) = ground (arith, times-snoc a x es)
