-- ===== src/Prelude/Bits.antt =====
-- `&` at variables: the law of the lowest bit, masks of ones, and the test for a power of two.
use Prim.Native.Nat.{
  ℕ, zero, suc, ◌+◌, ◌-◌, ◌*◌, ◌/◌, ◌%◌, ◌^◌, ◌≤◌, ◌<◌, min, bit_and, digits, bit_and-bitwise,
}
use mathlib.Core.Path.{◌≡◌, refl, ap, ◌∙◌}
use native.Mathlib.Nat.{pow-suc}
use native.Mathlib.Decide.{ℕ_discrete}
use native.Mathlib.Omega.{arith}

-- The digit recursion that `bit_and` stands for.
abbrev digitwise : ℕ → ℕ → ℕ → ℕ
digitwise fuel a b = digits (λ _. zero) min fuel a b

digitwise-fuel : (m n a b : ℕ) → a ≤ m → a ≤ n → digitwise m a b ≡ digitwise n a b
digitwise-fuel zero zero a b p q = refl
digitwise-fuel zero (suc n) zero b p q = refl
digitwise-fuel zero (suc n) (suc a) b p q = absurd (omega arith)
digitwise-fuel (suc m) zero zero b p q = refl
digitwise-fuel (suc m) zero (suc a) b p q = absurd (omega arith)
digitwise-fuel (suc m) (suc n) zero b p q = refl
digitwise-fuel (suc m) (suc n) (suc a) b p q =
    omega (arith, digitwise-fuel m n (suc a / 2) (b / 2) (omega arith) (omega arith))

pub bit_and_halves : (a b : ℕ) → bit_and a b ≡ bit_and (a / 2) (b / 2) * 2 + min (a % 2) (b % 2)
bit_and_halves zero b = omega (arith, bit_and-bitwise 0 b, bit_and-bitwise 0 (b / 2))
bit_and_halves (suc a) b = omega (
  arith,
  bit_and-bitwise (suc a) b,
  bit_and-bitwise (suc a / 2) (b / 2),
  digitwise-fuel a (suc a / 2) (suc a / 2) (b / 2) (omega arith) (omega arith),
)

-- Each law goes from `a / 2` to `a`, on a bound for `a`.
and_zero_below : (n a : ℕ) → a ≤ n → bit_and a 0 ≡ 0
and_zero_below n zero h = refl
and_zero_below zero (suc a) h = absurd (omega arith)
and_zero_below (suc n) (suc a) h =
    omega (arith, bit_and_halves (suc a) 0, and_zero_below n (suc a / 2) (omega arith))

and_self_below : (n a : ℕ) → a ≤ n → bit_and a a ≡ a
and_self_below n zero h = refl
and_self_below zero (suc a) h = absurd (omega arith)
and_self_below (suc n) (suc a) h =
    omega (arith, bit_and_halves (suc a) (suc a), and_self_below n (suc a / 2) (omega arith))

pub one-le-two_pow : (k : ℕ) → 1 ≤ 2 ^ k
one-le-two_pow zero = omega arith
one-le-two_pow (suc k) = omega (arith, pow-suc 2 k, one-le-two_pow k)

-- `a & (2^k - 1)` is the remainder by `2^k`.
and_mask_parts : (k q r : ℕ) → r < 2 ^ k → bit_and (q * 2 ^ k + r) (2 ^ k - 1) ≡ r
and_mask_parts zero q r h = omega (arith, and_zero_below (q * 1 + r) (q * 1 + r) (omega arith))
and_mask_parts (suc k) q r h =
    bit_and_halves (q * 2 ^ suc k + r) (2 ^ suc k - 1)
    ∙ rw (halved, mask_halved)
        (omega (
          arith,
          twice,
          pow-suc 2 k,
          one-le-two_pow k,
          and_mask_parts k q (r / 2) (omega (arith, pow-suc 2 k)),
        ))
  where
    twice : q * 2 ^ suc k ≡ 2 * (q * 2 ^ k)
    twice = omega (arith, ap (λ (t : ℕ). q * t) (pow-suc 2 k))

    halved : (q * 2 ^ suc k + r) / 2 ≡ q * 2 ^ k + r / 2
    halved = omega (arith, twice)

    mask_halved : (2 ^ suc k - 1) / 2 ≡ 2 ^ k - 1
    mask_halved = omega (arith, pow-suc 2 k, one-le-two_pow k)

pub bit_and_mask : (k a : ℕ) → bit_and a (2 ^ k - 1) ≡ a % 2 ^ k
bit_and_mask k a =
    let whole : a / 2 ^ k * 2 ^ k + a % 2 ^ k ≡ a = grind (arith, one-le-two_pow k) in
    let short : a % 2 ^ k < 2 ^ k = grind (arith, one-le-two_pow k) in
    rw whole at (and_mask_parts k (a / 2 ^ k) (a % 2 ^ k) short)

-- A power of two below `2 ^ n` meets `x & (x - 1) == 0`, and nothing else but zero does.
pub two_pow-and_pred : (k : ℕ) → bit_and (2 ^ k) (2 ^ k - 1) ≡ 0
two_pow-and_pred k = rw bit_and_mask (grind (arith, one-le-two_pow k))

log_below : (n a : ℕ) → a ≤ n → 0 < a → bit_and a (a - 1) ≡ 0 → (k : ℕ) × (a ≡ 2 ^ k)
log_below zero a h p e = absurd (omega arith)
log_below (suc n) a h p e = elim (ℕ_discrete (a % 2) 0) [
  | yes even ↦
      let halved : (a - 1) / 2 ≡ a / 2 - 1 = omega arith in
      let (k, e') =
        log_below n (a / 2) (omega arith) (omega arith)
          (omega (arith, rw halved at (bit_and_halves a (a - 1)))) in
      (suc k, omega (arith, pow-suc 2 k, e'))
  | no odd ↦
      let halved : (a - 1) / 2 ≡ a / 2 = omega arith in
      (
        0,
        omega (
          arith,
          rw halved at (bit_and_halves a (a - 1)),
          and_self_below (a / 2) (a / 2) (omega arith),
        ),
      )
]

pub log_of_and_pred : (a : ℕ) → 0 < a → bit_and a (a - 1) ≡ 0 → (k : ℕ) × (a ≡ 2 ^ k)
log_of_and_pred a = log_below a a (omega arith)
