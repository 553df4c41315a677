-- ===== src/Arena/Padding.antt =====
-- The arithmetic of padding to a power of two, for `align_offset` in arena.rs.
use native.Mathlib.Nat.{
  mod-lt, mod-eq_of_lt, mod_self, mod-eq-sub-mod, mod-add-mod, mod-mod_of_dvd, pow-le-pow_right,
  pow-suc, one-le-pow, dvd_refl, dvd-mul_right_of_dvd, dvd_of_mod-eq-zero, dvd-add_iff_right,
  dvd_trans, le_of_dvd, dvd-sub,
}
use dytor.Common.{
  ℕ, zero, suc, ◌+◌, ◌-◌, ◌%◌, ◌^◌, ◌≤◌, ◌<◌, ◌≡◌, ◌∣◌, sym, arith, dec_le, dec_lt, ℕ_discrete, inl,
  inr, ◌⊎◌,
}
use dytor.Arena.{IsPow2, align_offset}

pub IsPow2-pos : (a : ℕ) → IsPow2 a → 0 < a
IsPow2-pos a (k, e) = omega (arith, one-le-pow k 2 (omega arith))

align_offset-cases :
    (c a : ℕ)
    → 0 < a
    → ((c % a ≡ 0) × (align_offset c a ≡ 0)) ⊎ ((0 < c % a) × (align_offset c a ≡ a - c % a))
align_offset-cases c a h = elim (ℕ_discrete (c % a) 0) [
  | yes e ↦ inl (e, let z : a - c % a ≡ a = omega arith in rw z (mod_self a))
  | no n ↦ inr (omega arith, mod-eq_of_lt (omega (arith, mod-lt c h)))
]

-- Padding leads to a multiple.
pub mod-align_offset : (c a : ℕ) → 0 < a → (c + align_offset c a) % a ≡ 0
mod-align_offset c a h =
    rw (← mod-add-mod c a (align_offset c a)) (elim (align_offset-cases c a h) [
      | inl (e, p) ↦ let z : c % a + align_offset c a ≡ 0 = omega arith in rw z (mod-eq_of_lt h)
      | inr (e, p) ↦
          let q : c % a + align_offset c a ≡ a = omega (arith, mod-lt c h) in rw q (mod_self a)
    ])

-- No shorter padding does.
pub align_offset_min : (c a p : ℕ) → 0 < a → (c + p) % a ≡ 0 → align_offset c a ≤ p
align_offset_min c a p h e = elim (align_offset-cases c a h) [
  | inl (_, q) ↦ omega arith
  | inr (pos, q) ↦ elim (dec_lt p (a - c % a)) [
    | yes small ↦
        absurd
          (omega (arith, mod-eq_of_lt {n = c % a + p} {m = a} (omega arith), mod-add-mod c a p))
    | no big ↦ omega arith
  ]
]

pub align_offset-lt : (c a : ℕ) → 0 < a → align_offset c a < a
align_offset-lt c a h = mod-lt (a - c % a) h

-- Padding depends on the address modulo any multiple of the alignment only.
pub align_offset-mod : (c a b : ℕ) → a ∣ b → align_offset (c % b) a ≡ align_offset c a
align_offset-mod c a b h = rw (mod-mod_of_dvd a c h)

mod-last : (c a : ℕ) → 0 < a → (c + (a - 1)) % a ≡ (c % a + (a - 1)) % a
mod-last c a h = sym (mod-add-mod c a (a - 1))

-- The way `compute_space_required` writes a known padding.
pub known_padding : (c a : ℕ) → 0 < a → a - (c + a - 1) % a - 1 ≡ align_offset c a
known_padding c a h =
    let e : c + a - 1 ≡ c + (a - 1) = omega arith in
    rw (e, mod-last c a h)
      (elim (align_offset-cases c a h) [
        | inl (z, q) ↦
            rw (q, z) (omega (arith, mod-eq_of_lt {n = 0 + (a - 1)} {m = a} (omega arith)))
        | inr (pos, q) ↦ rw q (
            omega (
              arith,
              mod-eq-sub-mod {n = c % a + (a - 1)} {m = a} (omega arith),
              mod-eq_of_lt {n = c % a + (a - 1) - a} {m = a} (omega (arith, mod-lt c h)),
            ))
      ])

pow-dvd-pow : (i d : ℕ) → 2 ^ i ∣ 2 ^ (d + i)
pow-dvd-pow i zero = rw (Prim.Native.Nat.add.zero i) (dvd_refl (2 ^ i))
pow-dvd-pow i (suc d) =
    let e : suc d + i ≡ suc (d + i) = omega arith in
    rw (e, pow-suc 2 (d + i)) (dvd-mul_right_of_dvd (2 ^ i) (pow-dvd-pow i d) 2)

-- Of two powers of two the smaller divides the larger.
pub IsPow2-dvd : (a b : ℕ) → IsPow2 a → IsPow2 b → a ≤ b → a ∣ b
IsPow2-dvd a b (i, p) (j, q) h = elim (dec_le i j) [
  | yes le ↦ let e : j ≡ (j - i) + i = omega arith in rw (p, q, e) (pow-dvd-pow i (j - i))
  | no gt ↦
      let eq : a ≡ b =
        omega (arith, pow-le-pow_right {n = 2} (omega arith) {i = j} {j = i} (omega arith)) in
      rw eq (dvd_refl b)
]

-- Padding to `a` where only the address modulo `k` is known costs at most `a - k` beyond padding to `k`.
pub align_offset-widen :
    (c k a : ℕ) → 0 < k → k ∣ a → 0 < a → align_offset c a ≤ (a - k) + align_offset c k
align_offset-widen c k a hk d ha =
    let q = align_offset c k in
    let r = align_offset (c + q) a in
    let k_base : k ∣ c + q = dvd_of_mod-eq-zero k (mod-align_offset c k hk) in
    let a_sum : a ∣ (c + q) + r = dvd_of_mod-eq-zero a (mod-align_offset (c + q) a ha) in
    let k_r : k ∣ r = (dvd-add_iff_right k k_base).1 (dvd_trans k d a_sum) in
    let below : r < a = align_offset-lt (c + q) a ha in
    let room : k ≤ a - r = le_of_dvd (omega arith) (dvd-sub k d k_r) in
    let e : c + (q + r) ≡ (c + q) + r = omega arith in
    let least = align_offset_min c a (q + r) ha (rw e (mod-align_offset (c + q) a ha)) in
    omega arith

pub align_offset-aligned : (c a : ℕ) → 0 < a → c % a ≡ 0 → align_offset c a ≡ 0
align_offset-aligned c a h e = elim (align_offset-cases c a h) [
  | inl (_, q) ↦ q
  | inr (pos, _) ↦ absurd (omega arith)
]
