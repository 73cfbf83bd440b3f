-- ===== src/Base/Word.antt =====
-- Words of `w` bits: the casts of the source, and what two equal casts say of the numbers behind.
use native.Mathlib.Nat.{mod-lt, mod-eq_of_lt, mod-eq-sub-mod}
use mathlib.Core.Logic.{◌⊎◌, inl, inr}
use native.Mathlib.Decide.{dec_lt}
use native.Mathlib.Decide.{dec_le}
use lockfree_mpmc_queue.Base.Tests.{◌==◌}
use lockfree_mpmc_queue.Base.Bits.{bit_or-one}
use Prim.Native.Nat.{bit_or, ℕ, zero, suc, ◌+◌, ◌-◌, ◌*◌, ◌/◌, ◌%◌, ◌^◌, ◌≤◌, ◌<◌}
use mathlib.Core.Path.{◌≡◌, sym, ap, ◌∙◌}
use native.Mathlib.Nat.{
  add-zero, add-suc, pow-suc, mod-mod_of_dvd, mod-add-mod, add-mod, add-mul-mod_self_right,
  div-add-mod',
}
use native.Mathlib.Numerals.{sub-one}
use native.Mathlib.Omega.{arith}

-- `static_cast<index_type>(x)` for an index of `w` bits
abbrev pub cast : ℕ → ℕ → ℕ
cast w x = x % 2 ^ w

-- Two numbers less than a modulus apart with the same remainder are equal.
pub mod_close : (m a b : ℕ) → a ≤ b → b < a + m → a % m ≡ b % m → a ≡ b
mod_close m a b h k e = grind (arith, div-add-mod' a m, div-add-mod' b m)

pub mod_near : (m a b : ℕ) → a < b + m → b < a + m → a % m ≡ b % m → a ≡ b
mod_near m a b h k e = elim (dec_le a b) [
  | yes p ↦ mod_close m a b p k e
  | no p ↦ sym (mod_close m b a (omega arith) h (sym e))
]

-- `x * 2` and `x + c` may be cast before or after.
pub mod-double : (m x : ℕ) → (x % m * 2) % m ≡ (x * 2) % m
mod-double m x = rw (mul_two (x % m), mul_two x, ← add-mod x x m)
  where
    mul_two : (y : ℕ) → y * 2 ≡ y + y
    mul_two y = omega arith

pub mod-double-add : (m x c : ℕ) → (x % m * 2 + c) % m ≡ (x * 2 + c) % m
mod-double-add m x c =
    sym (mod-add-mod (x % m * 2) m c)
    ∙ ap (λ t. (t + c) % m) (mod-double m x)
    ∙ mod-add-mod (x * 2) m c

-- The affine forms that the code computes from an index word.
pub mod-affine : (m x a f : ℕ) → ((x % m + a) * 2 + f) % m ≡ ((x + a) * 2 + f) % m
mod-affine m x a f =
    sym (mod-double-add m (x % m + a) f)
    ∙ ap (λ t. (t * 2 + f) % m) (mod-add-mod x m a)
    ∙ mod-double-add m (x + a) f

pub pow-split : (k j : ℕ) → 2 ^ (k + j) ≡ 2 ^ k * 2 ^ j
pow-split k zero = omega (arith, ap (λ (t : ℕ). 2 ^ t) (add-zero k))
pow-split k (suc j) = simp (add-suc, pow-suc) (omega (arith, ap (λ (t : ℕ). t * 2) (pow-split k j)))

-- A word's index into an array of `2^k` slots is that of the number behind it.
pub mod_pow-mod_pow : (k w x : ℕ) → k ≤ w → (x % 2 ^ w) % 2 ^ k ≡ x % 2 ^ k
mod_pow-mod_pow k w x h =
    mod-mod_of_dvd (2 ^ k) {b = 2 ^ w} x
      ∣ (2 ^ (w - k), ap (λ (t : ℕ). 2 ^ t) (omega arith) ∙ pow-split k (w - k)) ∣₁

-- `s >> 1` on a sequence word.
pub half-double : (w x f : ℕ) → 0 < w → f < 2 → cast w (x * 2 + f) / 2 ≡ cast (w - 1) x
half-double zero x f h k = absurd (omega arith)
half-double (suc w) x f h k = rw (sub-one, pow-suc 2 w) (grind arith)

-- The sum that `compare_exchange_strong(i, i + 1)` stores.
pub cast-suc : (w x : ℕ) → cast w (cast w x + 1) ≡ cast w (x + 1)
cast-suc w x = mod-add-mod x (2 ^ w) 1

-- A comparison of casts decides the equality of numbers less than the modulus apart.
pub cast-== : (w a b : ℕ) → a < b + 2 ^ w → b < a + 2 ^ w → (cast w a == cast w b) ≡ (a == b)
cast-== w a b h k = ground (arith, mod_close (2 ^ w) a b, mod_close (2 ^ w) b a)

-- `s | 1` on a sequence word.
pub cast-bit_or : (w s : ℕ) → 0 < w → cast w (bit_or (cast w s) 1) ≡ cast w (s / 2 * 2 + 1)
cast-bit_or zero s h = absurd (omega arith)
cast-bit_or (suc w) s h =
    rw (bit_or-one, pow-suc 2 w)
      (sym (add-mul-mod_self_right (s % m / 2 * 2 + 1) (s / m) m)
        ∙ ap (λ t. t % m) (omega (arith, div-add-mod' s m)))
  where
    m : ℕ
    m = 2 ^ w * 2

-- The word of a number `n` further on, by whether it wraps.
pub mod-add-cases :
    (m a n : ℕ)
    → n < m
    → ((a % m + n < m) × ((a + n) % m ≡ a % m + n))
      ⊎ ((m ≤ a % m + n) × ((a + n) % m + m ≡ a % m + n))
mod-add-cases m a n h = elim (dec_lt (a % m + n) m) [
  | yes p ↦ inl (p, sym (mod-add-mod a m n) ∙ mod-eq_of_lt p)
  | no p ↦ inr (
    omega arith,
    omega (
      arith,
      mod-add-mod a m n,
      mod-lt a {m = m} (omega arith),
      mod-eq-sub-mod {n = a % m + n} {m = m} (omega arith),
      mod-eq_of_lt {n = a % m + n - m} {m = m} (omega (arith, mod-lt a {m = m} (omega arith))),
    ),
  )
]
