-- ===== src/Queue/Init/Widths.antt =====
-- `bits_for_value` counts binary digits, and what the constructor's check of a size accepts.
use native.Mathlib.Decide.{dec_lt}
use native.Mathlib.Nat.{pow-suc, one-le-pow, pow-le-pow_right, mod-eq_of_lt}
use lockfree_mpmc_queue.Base.{
  ℕ, zero, suc, ◌+◌, ◌-◌, ◌/◌, ◌^◌, ◌<◌, ◌≡◌, ap, ◌∙◌, false, some, ◌==◌, leb, bit_and, arith,
  ==_of_ne, Bool-cases, inl, inr,
}
use lockfree_mpmc_queue.Base.Bits.{power_of_bit_and, bit_and-power}
use lockfree_mpmc_queue.Base.Word.{cast}
use lockfree_mpmc_queue.Queue.{Config}
use lockfree_mpmc_queue.Queue.Shape.{IsShape}
use lockfree_mpmc_queue.Queue.Init.{bits_loop, bits_for_value, clear_lowest, bad_size}

bits_loop_total : (fuel j n b : ℕ) → n < 2 ^ j → j < fuel → (r : ℕ) × (bits_loop fuel n b ≡ some r)
unfolding bits_loop
bits_loop_total zero j n b h k = absurd (omega arith)
bits_loop_total (suc fuel) zero n b h k = let none_left : n ≡ 0 = omega arith in (b, ground arith)
bits_loop_total (suc fuel) (suc j) n b h k = elim (Bool-cases (n == 0)) [
  | inl done ↦ (b, rw done)
  | inr more ↦
      rw more (bits_loop_total fuel j (n / 2) (b + 1) (omega (arith, pow-suc 2 j)) (omega arith))
]

-- The loop ends within its fuel, whatever the argument.
pub bits_for_value_total : (n : ℕ) → (r : ℕ) × (bits_for_value n ≡ some r)
unfolding bits_for_value
bits_for_value_total n = bits_loop_total 33 32 (cast 32 n) 0 (omega arith) (omega arith)

bits_loop-power : (fuel k b : ℕ) → k + 1 < fuel → bits_loop fuel (2 ^ k) b ≡ some (b + k + 1)
unfolding bits_loop
bits_loop-power zero k b h = absurd (omega arith)
bits_loop-power (suc zero) k b h = absurd (omega arith)
bits_loop-power (suc (suc fuel)) zero b h = ground arith
bits_loop-power (suc (suc fuel)) (suc k) b h =
    let halves : 2 ^ suc k / 2 ≡ 2 ^ k = omega (arith, pow-suc 2 k) in
    let pos = one-le-pow (suc k) 2 (omega arith) in
    rw (==_of_ne (2 ^ suc k) 0 (omega arith), halves)
      (bits_loop-power (suc fuel) k (b + 1) (omega arith) ∙ ap some (omega arith))

power-lt : (k n : ℕ) → k < n → 2 ^ k < 2 ^ n
power-lt k n h = omega (
  arith,
  pow-suc 2 k,
  one-le-pow k 2 (omega arith),
  pow-le-pow_right {n = 2} (omega arith) {i = suc k} {j = n} h,
)

pub lt_of_power-lt : (k n : ℕ) → 2 ^ k < 2 ^ n → k < n
lt_of_power-lt k n h = elim (dec_lt k n) [
  | yes p ↦ p
  | no p ↦
      absurd (omega (arith, pow-le-pow_right {n = 2} (omega arith) {i = n} {j = k} (omega arith)))
]

-- A power of two below 2^32 needs one bit more than its exponent.
bits_for_value-power : (k : ℕ) → k < 32 → bits_for_value (2 ^ k) ≡ some (k + 1)
unfolding bits_for_value
bits_for_value-power k h =
    ap (λ n. bits_loop 33 n 0) (mod-eq_of_lt (power-lt k 32 h))
    ∙ bits_loop-power 33 k 0 (omega arith)
    ∙ ap some (omega arith)

clear_lowest-pos : (n : ℕ) → 0 < n → n < 2 ^ 64 → clear_lowest n ≡ bit_and n (n - 1)
clear_lowest-pos n p h = ap (bit_and n) (omega arith)

alone :
    (c : Config)
    → 0 < c.size
    → c.size < 2 ^ 32
    → bad_size c.bits c.size ≡ some false
    → bit_and c.size (c.size - 1) ≡ 0
unfolding bad_size
alone c p small passes = ground (arith, bits_for_value_total c.size, clear_lowest-pos c.size p)

module _ (c : Config) (k : ℕ) (power : c.size ≡ 2 ^ k) (small : c.size < 2 ^ 32) where
  bad_size-power : bad_size c.bits c.size ≡ some (leb c.bits (k + 1))
  unfolding bad_size
  bad_size-power =
      let lt : k < 32 = lt_of_power-lt k 32 (rw (← power) small) in
      let pos = one-le-pow k 2 (omega arith) in
      rw power (
        ground (
          arith,
          bits_for_value-power k lt,
          clear_lowest-pos (2 ^ k) pos (omega arith),
          bit_and-power k,
        ))

-- The check lets pass every size that the queue needs.
pub bad_size-IsShape :
    (c : Config) → IsShape c → c.size < 2 ^ 32 → bad_size c.bits c.size ≡ some false
bad_size-IsShape c s small = bad_size-power c s.log_size s.power small ∙ ground (arith, s.wide)

-- Below 2^32 it lets pass no other.
pub IsShape-bad_size :
    (c : Config) → 0 < c.size → c.size < 2 ^ 32 → bad_size c.bits c.size ≡ some false → IsShape c
IsShape-bad_size c p small passes =
    let (k, power) = power_of_bit_and c.size p (alone c p small passes) in
    record { log_size = k; power = power; wide = ground (arith, bad_size-power c k power small) }
