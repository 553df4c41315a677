-- ===== src/Common/Panic.antt =====
-- Code that may panic: an `unwrap` of nothing, a failed assertion, an arithmetic overflow under
-- the checks of the development profile.
use Prim.Native.Nat.{ℕ, ◌+◌, ◌-◌, ◌^◌, ◌≤◌, ◌<◌}
use mathlib.Core.Path.{◌≡◌, refl}
use mathlib.Core.Bool.{Bool, true, false}
use mathlib.Core.Option.{Option, none, some}
use native.Mathlib.Omega.{arith}
use dytor.Common.Tests.{ltb, leb, if◌then◌else◌}

pub data Exec {ℓ} (A : Type ℓ) : Type ℓ where
  returns : A → Exec A
  panics : Exec A

infixl 5 ◌>>=◌ ◌>>◌
abbrev pub ◌>>=◌ {ℓ κ} : {A : Type ℓ} {B : Type κ} → Exec A → (A → Exec B) → Exec B
returns a >>= f = f a
panics >>= f = panics

abbrev pub ◌>>◌ {ℓ} : {B : Type ℓ} → Exec (Unit {0}) → Exec B → Exec B
m >> k = m >>= λ _. k

-- `assert!`
abbrev pub assert : Bool → Exec (Unit {0})
assert true = returns tt
assert false = panics

-- `Option::unwrap`
abbrev pub unwrap {ℓ} : {A : Type ℓ} → Option A → Exec A
unwrap (some a) = returns a
unwrap none = panics

pub >>=-eq-returns {ℓ κ} :
    {A : Type ℓ} {B : Type κ} (m : Exec A) (f : A → Exec B) {b : B}
    → (m >>= f) ≡ returns b
    → (a : A) × (m ≡ returns a) × (f a ≡ returns b)
>>=-eq-returns (returns a) f h = (a, refl, h)
>>=-eq-returns panics f h = cc

-- `usize` on a 64-bit target, and the range of `u32`.
abbrev pub usize_mod : ℕ
usize_mod = 2 ^ 64

abbrev pub u32_mod : ℕ
u32_mod = 2 ^ 32

-- `a + b` and `a - b` on `usize` with overflow checks.
unfoldable pub add_checked : ℕ → ℕ → Exec ℕ
add_checked a b = if ltb (a + b) usize_mod then returns (a + b) else panics

unfoldable pub sub_checked : ℕ → ℕ → Exec ℕ
sub_checked a b = if leb b a then returns (a - b) else panics

-- `TryInto<u32>` followed by `unwrap`.
unfoldable pub to_u32 : ℕ → Exec ℕ
to_u32 n = if ltb n u32_mod then returns n else panics

pub sub_checked-le : (a b : ℕ) → b ≤ a → sub_checked a b ≡ returns (a - b)
unfolding sub_checked
sub_checked-le a b h = ground arith

pub to_u32-lt : (n : ℕ) → n < u32_mod → to_u32 n ≡ returns n
unfolding to_u32
to_u32-lt n h = ground arith

pub to_u32-returns : (n m : ℕ) → to_u32 n ≡ returns m → (n < u32_mod) × (m ≡ n)
unfolding to_u32
to_u32-returns n m h = ground arith

pub add_checked-lt : (a b : ℕ) → a + b < usize_mod → add_checked a b ≡ returns (a + b)
unfolding add_checked
add_checked-lt a b h = ground arith

-- Code that cannot return panics.
pub panics_unless {ℓ} : {A : Type ℓ} (m : Exec A) → ((a : A) → m ≡ returns a → ⊥) → m ≡ panics
panics_unless (returns a) no_return = absurd (no_return a refl)
panics_unless panics no_return = refl
