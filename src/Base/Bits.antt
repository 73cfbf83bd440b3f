-- ===== src/Base/Bits.antt =====
-- `&` with a mask of low bits and `|` with the lowest bit, as arithmetic, at every width.
use native.Mathlib.Decide.{ℕ_discrete}
use native.Mathlib.Nat.{mod_self}
use Prim.Native.Nat.{
  ℕ, zero, suc, ◌+◌, ◌-◌, ◌*◌, ◌/◌, ◌%◌, ◌^◌, ◌≤◌, ◌<◌, min, max, bit_and, bit_or, digits,
  bit_and-bitwise, bit_or-bitwise,
}
use mathlib.Core.Path.{◌≡◌, refl, ap, sym, ◌∙◌}
use native.Mathlib.Nat.{pow-suc, one-le-pow}
use native.Mathlib.Omega.{arith}

-- The native operations recurse on digits with the first number as fuel. One unit of fuel for each
-- halving is enough, so surplus fuel is never looked at.
module _ (rest : ℕ → ℕ) (join : ℕ → ℕ → ℕ) where
  digits_of_zero : (fuel : ℕ) (y : ℕ) → digits rest join fuel 0 y ≡ rest y
  digits_of_zero zero y = refl
  digits_of_zero (suc fuel) y = refl

  surplus :
      (spare used x y : ℕ)
      → x ≤ used
      → digits rest join (used + spare) x y ≡ digits rest join used x y
  surplus spare used zero y h = digits_of_zero (used + spare) y ∙ sym (digits_of_zero used y)
  surplus spare zero (suc x) y h = absurd (omega arith)
  surplus spare (suc used) (suc x) y h =
      ap (λ fuel. digits rest join fuel (suc x) y) regroup
      ∙ ap (λ r. r * 2 + join (suc x % 2) (y % 2))
          (surplus spare used (suc x / 2) (y / 2) (omega arith))
    where
      regroup : suc used + spare ≡ suc (used + spare)
      regroup = omega arith

  -- The fuel `x` of `suc x / 2` is the number itself and the spare `x - suc x / 2`.
  one_digit :
      (x y : ℕ)
      → digits rest join x (suc x / 2) (y / 2) ≡ digits rest join (suc x / 2) (suc x / 2) (y / 2)
  one_digit x y =
      ap (λ fuel. digits rest join fuel (suc x / 2) (y / 2)) (omega arith)
      ∙ surplus (x - suc x / 2) (suc x / 2) (suc x / 2) (y / 2) (omega arith)

and_low : (a b : ℕ) → bit_and a b ≡ bit_and (a / 2) (b / 2) * 2 + min (a % 2) (b % 2)
and_low zero b = simp bit_and-bitwise (omega arith)
and_low (suc a) b = simp bit_and-bitwise (omega (arith, one_digit (λ y. 0) min a b))

or_low : (a b : ℕ) → bit_or a b ≡ bit_or (a / 2) (b / 2) * 2 + max (a % 2) (b % 2)
or_low zero b = simp bit_or-bitwise (omega arith)
or_low (suc a) b = simp bit_or-bitwise (omega (arith, one_digit (λ y. y) max a b))

-- Any bound on `a` serves as the induction's fuel.
and_none : (fuel a : ℕ) → a ≤ fuel → bit_and a 0 ≡ 0
and_none zero zero h = refl
and_none zero (suc a) h = absurd (omega arith)
and_none (suc fuel) zero h = refl
and_none (suc fuel) (suc a) h =
    omega (arith, and_low (suc a) 0, and_none fuel (suc a / 2) (omega arith))

or_none : (fuel a : ℕ) → a ≤ fuel → bit_or a 0 ≡ a
or_none zero zero h = refl
or_none zero (suc a) h = absurd (omega arith)
or_none (suc fuel) zero h = refl
or_none (suc fuel) (suc a) h =
    omega (arith, or_low (suc a) 0, or_none fuel (suc a / 2) (omega arith))

-- `a & 1` is the parity of `a`.
pub bit_and-one : (a : ℕ) → bit_and a 1 ≡ a % 2
bit_and-one a = omega (arith, and_low a 1, and_none (a / 2) (a / 2) (omega arith))

-- `a | 1` is the odd number of `a` and its neighbour.
pub bit_or-one : (a : ℕ) → bit_or a 1 ≡ a / 2 * 2 + 1
bit_or-one a = omega (arith, or_low a 1, or_none (a / 2) (a / 2) (omega arith))

and_field : (k q r : ℕ) → r < 2 ^ k → bit_and (q * 2 ^ k + r) (2 ^ k - 1) ≡ r
and_field zero q r h = rw (and_none (q * 2 ^ 0 + r) (q * 2 ^ 0 + r) (omega arith)) (omega arith)
and_field (suc k) q r h = ground (
  arith,
  and_low (q * 2 ^ suc k + r) (2 ^ suc k - 1),
  pow-suc 2 k,
  one-le-pow k 2,
  ap (λ (t : ℕ). q * t) (pow-suc 2 k),
  and_field k q (r / 2),
)

-- `a & (2^k - 1)` is the remainder by `2^k`.
pub bit_and_mask : (k a : ℕ) → bit_and a (2 ^ k - 1) ≡ a % 2 ^ k
bit_and_mask k a = ground (arith, one-le-pow k 2, and_field k (a / 2 ^ k) (a % 2 ^ k))

and_self : (fuel a : ℕ) → a ≤ fuel → bit_and a a ≡ a
and_self zero zero h = refl
and_self zero (suc a) h = absurd (omega arith)
and_self (suc fuel) zero h = refl
and_self (suc fuel) (suc a) h =
    omega (arith, and_low (suc a) (suc a), and_self fuel (suc a / 2) (omega arith))

power_fuel : (fuel a : ℕ) → a ≤ fuel → 0 < a → bit_and a (a - 1) ≡ 0 → (k : ℕ) × (a ≡ 2 ^ k)
power_fuel zero a h p e = absurd (omega arith)
power_fuel (suc fuel) a h p e = elim (ℕ_discrete (a % 2) 0) [
  | yes even ↦
      let halves : (a - 1) / 2 ≡ a / 2 - 1 = omega arith in
      let (k, f) =
        power_fuel fuel (a / 2) (omega arith) (omega arith)
          (omega (arith, and_low a (a - 1), ap (bit_and (a / 2)) halves)) in
      (suc k, omega (arith, pow-suc 2 k))
  | no odd ↦
      let halves : (a - 1) / 2 ≡ a / 2 = omega arith in
      (
        0,
        omega (
          arith,
          and_low a (a - 1),
          ap (bit_and (a / 2)) halves,
          and_self (a / 2) (a / 2) (omega arith),
        ),
      )
]

-- `a & (a - 1)` clears the lowest set bit: only a power of two has no other.
pub power_of_bit_and : (a : ℕ) → 0 < a → bit_and a (a - 1) ≡ 0 → (k : ℕ) × (a ≡ 2 ^ k)
power_of_bit_and a p e = power_fuel a a (omega arith) p e

pub bit_and-power : (k : ℕ) → bit_and (2 ^ k) (2 ^ k - 1) ≡ 0
bit_and-power k = bit_and_mask k (2 ^ k) ∙ mod_self (2 ^ k)
