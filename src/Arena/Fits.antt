-- ===== src/Arena/Fits.antt =====
-- The offsets that `get_offsets` computes lie within the space that `compute_space_required` asks for.
use native.Mathlib.Nat.{mod-eq_of_lt, mod-add-mod, le_refl, mod-one}
use dytor.Common.{
  ℕ, ◌+◌, ◌-◌, ◌%◌, ◌≤◌, ◌<◌, ◌≡◌, List, [], ◌∷◌, returns, arith, sub_checked-le, to_u32-lt,
  to_u32-returns, usize_mod, u32_mod, ltb, All, refl, sym, subst, Bool-cases, inl, inr,
  >>=-eq-returns,
}
use dytor.Arena.{
  Layout, IsLayout, align_offset, wrapping_add, Space, empty_space, advance, advance_all,
  compute_space_required, get_offsets_from, get_offsets, Offset,
}
use dytor.Arena.Padding.{
  IsPow2-pos, align_offset-mod, align_offset-widen, IsPow2-dvd, mod-align_offset,
}
use dytor.Arena.Required.{extra, after, IsSpace, advance_lem, after-IsSpace, empty_space-IsSpace}

-- The state of `compute_space_required` says of the address `curr` of `get_offsets` what it is
-- modulo the largest alignment so far, and bounds it.
record Tracks (start curr : ℕ) (s : Space) : Type 0 where
  valid : IsSpace s
  congruent : curr % s.known_align ≡ s.curr_offset
  above : start ≤ curr
  below : curr ≤ start + s.res

module _ (s : Space) (l : Layout) (start curr : ℕ) (t : Tracks start curr s) (w : IsLayout l) where
  align_pos : 0 < l.align
  align_pos = IsPow2-pos l.align w

  known_pos : 0 < s.known_align
  known_pos = IsPow2-pos s.known_align t.valid.known

  align_offset-le-extra : align_offset curr l.align ≤ extra s l.align
  unfolding extra
  align_offset-le-extra = elim (Bool-cases (ltb s.known_align l.align)) [
    | inl e ↦
        let d = IsPow2-dvd s.known_align l.align t.valid.known w (ground arith) in
        rw (e, ← t.congruent) (align_offset-widen curr s.known_align l.align known_pos d align_pos)
    | inr e ↦
        let d = IsPow2-dvd l.align s.known_align w t.valid.known (ground arith) in
        rw (e, ← t.congruent, align_offset-mod curr l.align s.known_align d) (le_refl _)
  ]

  -- The address behind the object that the round places.
  next : ℕ
  next = curr + align_offset curr l.align + l.size

  next-mod : next % (after s l).known_align ≡ (after s l).curr_offset
  unfolding next after
  next-mod = elim (Bool-cases (ltb s.known_align l.align)) [
    | inl e ↦ rw e (
        rw
          (
            ← mod-add-mod (curr + align_offset curr l.align) l.align l.size,
            mod-align_offset curr l.align align_pos,
          )
          refl)
    | inr e ↦
        let k = s.known_align in
        let d = IsPow2-dvd l.align k w t.valid.known (ground arith) in
        let p : align_offset s.curr_offset l.align ≡ align_offset curr l.align =
          rw (← t.congruent) (align_offset-mod curr l.align k d) in
        rw
          (
            e,
            p,
            ← t.congruent,
            mod-add-mod curr k (align_offset curr l.align),
            mod-add-mod (curr + align_offset curr l.align) k l.size,
          )
          refl
  ]

  Tracks-after : Tracks start next (after s l)
  unfolding next after
  Tracks-after = record {
    valid = after-IsSpace s l t.valid w;
    congruent = next-mod;
    above = omega (arith, t.above);
    below = omega (arith, t.below, align_offset-le-extra);
  }

-- Each object starts at a multiple of its alignment, behind the one before it, and the last ends
-- within the block.
abbrev pub Packed : (base capacity from : ℕ) → List Layout → List Offset → Type 0
Packed base capacity from [] [] = from ≤ capacity
Packed base capacity from (l ∷ ls) (o ∷ os) =
    (from ≤ o) × ((base + o) % l.align ≡ 0) × Packed base capacity (o + l.size) ls os
Packed base capacity from _ _ = ⊥

res-le-advance_all :
    (s t : Space) (ls : List Layout)
    → All IsLayout ls
    → advance_all s ls ≡ returns t
    → s.res ≤ t.res
unfolding advance_all after
res-le-advance_all s t [] w h = ground arith
res-le-advance_all s t (l ∷ ls) w h =
    let (m, p, q) = >>=-eq-returns (advance s l) _ h in
    let e = advance_lem s m l (IsPow2-pos l.align w.0) p in
    let rest = res-le-advance_all m t ls w.1 q in ground arith

-- What the rest of the loop does, and the object before it.
get_offsets_from-cons :
    (start capacity curr next : ℕ) (l : Layout) (ls : List Layout) (os : List Offset)
    → 0 < l.align
    → start ≤ curr
    → next ≡ curr + align_offset curr l.align + l.size
    → next ≤ start + capacity
    → start + capacity < usize_mod
    → capacity < u32_mod
    → get_offsets_from start next ls ≡ returns os
    → Packed start capacity (next - start) ls os
    → (os' : List Offset) × (get_offsets_from start curr (l ∷ ls) ≡ returns os')
      × Packed start capacity (curr - start) (l ∷ ls) os'
unfolding get_offsets_from
get_offsets_from-cons start capacity curr next l ls os pos above e below room small runs packed =
    let addr = curr + align_offset curr l.align in
    let first : wrapping_add curr (align_offset curr l.align) ≡ addr = mod-eq_of_lt (omega arith) in
    let second : wrapping_add addr l.size ≡ next = rw e (mod-eq_of_lt (omega arith)) in
    let base : start + (addr - start) ≡ addr = omega arith in
    let rest : addr - start + l.size ≡ next - start = omega arith in
    (
      (addr - start) ∷ os,
      rw
          (
            first,
            sub_checked-le addr start (omega arith),
            to_u32-lt (addr - start) (omega arith),
            second,
            runs,
          )
          refl,
      (omega arith, rw base (mod-align_offset curr l.align pos), rw rest packed),
    )

get_offsets_from-Packed :
    (start curr : ℕ) (s t : Space) (ls : List Layout)
    → All IsLayout ls
    → Tracks start curr s
    → advance_all s ls ≡ returns t
    → start + t.res < usize_mod
    → t.res < u32_mod
    → (os : List Offset) × (get_offsets_from start curr ls ≡ returns os)
      × Packed start t.res (curr - start) ls os
unfolding get_offsets_from advance_all next
get_offsets_from-Packed start curr s t [] w k h room small =
    ([], refl, ground (arith, k.above, k.below))
get_offsets_from-Packed start curr s t (l ∷ ls) w k h room small =
    let (m, p, q) = >>=-eq-returns (advance s l) _ h in
    let e = advance_lem s m l (IsPow2-pos l.align w.0) p in
    let k' : Tracks start (next s l start curr k w.0) m =
      rw e (Tracks-after s l start curr k w.0) in
    let grown = res-le-advance_all m t ls w.1 q in
    let below : next s l start curr k w.0 ≤ start + t.res = omega (arith, k'.below) in
    let (os, runs, packed) =
      get_offsets_from-Packed start (next s l start curr k w.0) m t ls w.1 k' q room small in
    get_offsets_from-cons start t.res curr _ l ls os (IsPow2-pos l.align w.0) k.above refl below
      room small runs packed

Tracks-empty : (base : ℕ) → Tracks base base empty_space
Tracks-empty base = record {
  valid = empty_space-IsSpace;
  congruent = mod-one base;
  above = le_refl base;
  below = omega arith;
}

get_offsets-of_space :
    (base capacity : ℕ) (t : Space) (ls : List Layout)
    → All IsLayout ls
    → advance_all empty_space ls ≡ returns t
    → t.res < u32_mod
    → capacity ≡ t.res
    → base + capacity < usize_mod
    → (os : List Offset) × (get_offsets base ls ≡ returns os) × Packed base capacity 0 ls os
unfolding get_offsets
get_offsets-of_space base capacity t ls w runs small same room =
    let (os, ends, packed) =
      get_offsets_from-Packed base base empty_space t ls w (Tracks-empty base) runs (omega arith)
        small in
    (
      os,
      ends,
      subst (λ c. Packed base c 0 ls os) (sym same)
          (subst (λ n. Packed base t.res n ls os) (omega arith) packed),
    )

-- When `compute_space_required` returns a capacity and the block of that capacity at `base` lies
-- within the address space, `get_offsets` returns, each offset is a multiple of its layout's
-- alignment as an address, each object starts at or behind the end of the one before it, and the
-- last one ends within the capacity: whatever the alignment of `base`.
pub get_offsets-Packed :
    (base capacity : ℕ) (ls : List Layout)
    → All IsLayout ls
    → compute_space_required ls ≡ returns capacity
    → base + capacity < usize_mod
    → (os : List Offset) × (get_offsets base ls ≡ returns os) × Packed base capacity 0 ls os
unfolding compute_space_required
get_offsets-Packed base capacity ls w h room =
    let (t, runs, e) = >>=-eq-returns (advance_all empty_space ls) _ h in
    let (small, same) = to_u32-returns t.res capacity e in
    get_offsets-of_space base capacity t ls w runs small same room
