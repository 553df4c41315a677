-- ===== src/Arena/Required.antt =====
-- `compute_space_required` of arena.rs without its overflow checks, and how far its result goes.
use native.Mathlib.Nat.{mod-lt}
use dytor.Common.{
  ℕ, ◌*◌, ◌+◌, ◌-◌, ◌%◌, ◌≤◌, ◌<◌, ◌≡◌, List, [], ◌∷◌, returns, arith, to_u32-lt, usize_mod,
  u32_mod, ltb, if◌then◌else◌, All, refl, Bool-cases, inl, inr, >>=-eq-returns,
}
use dytor.Arena.{
  Layout, IsLayout, IsPow2, align_offset, Space, empty_space, widen, pad, occupy, advance,
  advance_all, compute_space_required,
}
use dytor.Arena.Padding.{known_padding, IsPow2-pos, align_offset-lt}

-- The padding that one round adds to `res`.
unfoldable pub extra : Space → ℕ → ℕ
extra s align =
    if ltb s.known_align align
    then align - s.known_align + (s.known_align - s.curr_offset) % s.known_align
    else align_offset s.curr_offset align

-- The state after a round.
unfoldable pub after : Space → Layout → Space
after s l = record {
  res = s.res + extra s l.align + l.size;
  known_align = if ltb s.known_align l.align then l.align else s.known_align;
  curr_offset =
      if ltb s.known_align l.align
      then (0 + l.size) % l.align
      else ((s.curr_offset + align_offset s.curr_offset l.align) % s.known_align + l.size)
        % s.known_align;
}

pub record IsSpace (s : Space) : Type 0 where
  pub known : IsPow2 s.known_align
  pub inside : s.curr_offset < s.known_align

-- The results of `widen`, `pad` and `occupy`.
abbrev widened : Space → ℕ → Space
widened s align = record {
  res = s.res + (align - s.known_align + (s.known_align - s.curr_offset) % s.known_align);
  known_align = align;
  curr_offset = 0;
}

abbrev padded : Space → ℕ → Space
padded s align = record s {
  res = s.res + align_offset s.curr_offset align;
  curr_offset = (s.curr_offset + align_offset s.curr_offset align) % s.known_align;
}

abbrev occupied : Space → ℕ → Space
occupied s size = record s {
  res = s.res + size;
  curr_offset = (s.curr_offset + size) % s.known_align;
}

widen_lem : (s t : Space) (align : ℕ) → widen s align ≡ returns t → t ≡ widened s align
unfolding widen
widen_lem s t align h = ground arith

pad_lem : (s t : Space) (align : ℕ) → 0 < align → pad s align ≡ returns t → t ≡ padded s align
unfolding pad
pad_lem s t align pos h = ground (arith, known_padding s.curr_offset align)

occupy_lem : (s t : Space) (size : ℕ) → occupy s size ≡ returns t → t ≡ occupied s size
unfolding occupy
occupy_lem s t size h = ground arith

pub advance_lem : (s t : Space) (l : Layout) → 0 < l.align → advance s l ≡ returns t → t ≡ after s l
unfolding advance after extra
advance_lem s t l pos h = elim (Bool-cases (ltb s.known_align l.align)) [
  | inl e ↦
      let (m, p, q) = >>=-eq-returns (widen s l.align) _ (rw e at h) in
      ground (arith, widen_lem s m l.align p, occupy_lem m t l.size q)
  | inr e ↦
      let (m, p, q) = >>=-eq-returns (pad s l.align) _ (rw e at h) in
      ground (arith, pad_lem s m l.align pos p, occupy_lem m t l.size q)
]

pub after-IsSpace : (s : Space) (l : Layout) → IsSpace s → IsLayout l → IsSpace (after s l)
unfolding after
after-IsSpace s l v w = elim (Bool-cases (ltb s.known_align l.align)) [
  | inl e ↦ record { known = rw e w; inside = rw e (mod-lt (0 + l.size) (IsPow2-pos l.align w)) }
  | inr e ↦ record { known = rw e v.known; inside = rw e (mod-lt _ (IsPow2-pos _ v.known)) }
]

pub empty_space-IsSpace : IsSpace empty_space
empty_space-IsSpace = record { known = (0, refl); inside = omega arith }

widen-returns :
    (s : Space) (align : ℕ)
    → IsSpace s
    → s.known_align < align
    → s.res + align < usize_mod
    → widen s align ≡ returns (widened s align)
unfolding widen
widen-returns s align v lt room =
    ground (arith, mod-lt (s.known_align - s.curr_offset) {m = s.known_align})

pad-returns :
    (s : Space) (align : ℕ)
    → IsSpace s
    → 0 < align
    → align ≤ s.known_align
    → s.res + align < usize_mod
    → s.known_align + align < usize_mod
    → pad s align ≡ returns (padded s align)
unfolding pad
pad-returns s align v pos le room fits = ground (
  arith,
  known_padding s.curr_offset align,
  align_offset-lt s.curr_offset align,
  mod-lt (s.curr_offset + align - 1) {m = align},
)

occupy-returns :
    (s : Space) (size : ℕ)
    → s.res + size < usize_mod
    → s.curr_offset + size < usize_mod
    → occupy s size ≡ returns (occupied s size)
unfolding occupy
occupy-returns s size room fits = ground arith

-- No check fails in a round while the total stays small.
pub advance-returns :
    (s : Space) (l : Layout)
    → IsSpace s
    → IsLayout l
    → s.res + s.known_align + l.size + l.align < usize_mod
    → advance s l ≡ returns (after s l)
unfolding advance after extra
advance-returns s l v w room =
    let pos = IsPow2-pos l.align w in
    elim (Bool-cases (ltb s.known_align l.align)) [
      | inl e ↦
          let lt : s.known_align < l.align = ground arith in
          let b = mod-lt (s.known_align - s.curr_offset) (IsPow2-pos s.known_align v.known) in
          rw (e, widen-returns s l.align v lt (omega arith))
            (occupy-returns (widened s l.align) l.size (omega arith) (omega arith))
      | inr e ↦
          let le : l.align ≤ s.known_align = ground arith in
          let p = align_offset-lt s.curr_offset l.align pos in
          let b =
            mod-lt (s.curr_offset + align_offset s.curr_offset l.align)
              (IsPow2-pos s.known_align v.known) in
          rw (e, pad-returns s l.align v pos le (omega arith) (omega arith))
            (occupy-returns (padded s l.align) l.size (omega arith) (omega arith))
    ]

extra-lt : (s : Space) (align : ℕ) → IsSpace s → 0 < align → extra s align < align
unfolding extra
extra-lt s align v pos = elim (Bool-cases (ltb s.known_align align)) [
  | inl e ↦
      let b = mod-lt (s.known_align - s.curr_offset) (IsPow2-pos s.known_align v.known) in
      rw e (ground arith)
  | inr e ↦ rw e (align_offset-lt s.curr_offset align pos)
]

-- The space that the layouts take with no padding, and with the most that padding can cost.
abbrev pub least_space : List Layout → ℕ
least_space [] = 0
least_space (l ∷ ls) = l.size + least_space ls

abbrev pub most_space : List Layout → ℕ
most_space [] = 0
most_space (l ∷ ls) = l.size + (l.align - 1) + most_space ls

advance_all-bounds :
    (s : Space) (ls : List Layout) (widest : ℕ)
    → IsSpace s
    → All IsLayout ls
    → All (λ l. l.align ≤ widest) ls
    → s.known_align ≤ widest
    → s.res + most_space ls + 2 * widest < usize_mod
    → (t : Space) × (advance_all s ls ≡ returns t)
      × (s.res + least_space ls ≤ t.res)
      × (t.res ≤ s.res + most_space ls)
unfolding advance_all after
advance_all-bounds s [] b v w small known room = (s, refl, omega arith, omega arith)
advance_all-bounds s (l ∷ ls) b v w small known room =
    let pos = IsPow2-pos l.align w.0 in
    let x = extra-lt s l.align v pos in
    let (t, e, lo, hi) =
      advance_all-bounds (after s l) ls b (after-IsSpace s l v w.0) w.1 small.1 (ground arith)
        (omega arith) in
    (t, rw (advance-returns s l v w.0 (omega arith)) e, omega arith, omega arith)

-- With alignments up to `widest`, and the layouts and twice that alignment below 2^32 in all, no
-- check fails: `compute_space_required` returns a number of bytes between the sum of the sizes and
-- the sum of the sizes and of the alignments less one each.
pub compute_space_required-bounds :
    (ls : List Layout) (widest : ℕ)
    → All IsLayout ls
    → All (λ l. l.align ≤ widest) ls
    → 1 ≤ widest
    → most_space ls + 2 * widest < u32_mod
    → (capacity : ℕ) × (compute_space_required ls ≡ returns capacity)
      × (least_space ls ≤ capacity)
      × (capacity ≤ most_space ls)
unfolding compute_space_required
compute_space_required-bounds ls b w small one room =
    let (t, e, lo, hi) =
      advance_all-bounds empty_space ls b empty_space-IsSpace w small one (omega arith) in
    (t.res, rw e (to_u32-lt t.res (omega arith)), omega arith, omega arith)
