-- ===== src/Hash/Count.antt =====
-- The count of a signature: one for each eight bytes, so pieces of a string are not the string.
use native.Mathlib.Decide.{dec_lt}
use native.Mathlib.Nat.{mod-add-mod}
use lockfree_mpmc_queue.Base.{
  ℕ, zero, suc, ◌+◌, ◌-◌, ◌/◌, ◌^◌, ◌<◌, ◌≤◌, ◌≡◌, refl, ap, ◌∙◌, true, false, List, [], ◌∷◌,
  length, some, arith, ltb, ◌++◌, length-append, ◌≢◌,
}
use lockfree_mpmc_queue.Base.Word.{cast, mod_close}
use lockfree_mpmc_queue.Hash.{
  Signature, load_bytes, drop, add_value, add_chunks, add_string, same_signature,
}

length-drop : (n : ℕ) (bytes : List ℕ) → length (drop n bytes) ≡ length bytes - n
length-drop zero bytes = omega arith
length-drop (suc n) [] = omega arith
length-drop (suc n) (b ∷ bytes) = omega (arith, length-drop n bytes)

-- How often a string counts: once for each eight bytes begun, and once if it is empty.
abbrev pub chunks : List ℕ → ℕ
chunks [] = 1
chunks bytes = (length bytes + 7) / 8

-- `add(string_view)` returns, and adds `n` to the count.
abbrev pub Counts : ℕ → Signature → List ℕ → ℕ → Type 0
Counts fuel s bytes n =
    (t : Signature) × (add_string fuel s bytes ≡ some t) × (t.count ≡ cast 64 (s.count + n))

add_chunks-count :
    (fuel : ℕ) (s : Signature) (bytes : List ℕ)
    → 0 < length bytes
    → length bytes ≤ fuel
    → (t : Signature) × (add_chunks fuel s bytes ≡ some t)
      × (t.count ≡ cast 64 (s.count + (length bytes + 7) / 8))
unfolding add_chunks add_value
add_chunks-count zero s bytes pos enough = absurd (omega arith)
add_chunks-count (suc fuel) s bytes pos enough = elim (dec_lt 8 (length bytes)) [
  | yes long ↦
      let t = add_value s (load_bytes 8 bytes) in
      let shorter = length-drop 8 bytes in
      let (last, rest, count) =
        add_chunks-count fuel t (drop 8 bytes) (omega arith) (omega arith) in
      (
        last,
        rw (some_left, more long) rest,
        count ∙ mod-add-mod (s.count + 1) (2 ^ 64) _ ∙ ap (λ n. cast 64 n) (omega arith),
      )
  | no short ↦ (
    add_value s (load_bytes 8 bytes),
    rw (some_left, no_more short) refl,
    ap (λ n. cast 64 (s.count + n)) (omega arith),
  )
]
  where
    some_left : ltb 0 (length bytes) ≡ true
    some_left = ground arith

    more : 8 < length bytes → ltb 8 (length bytes) ≡ true
    more long = ground arith

    no_more : ¬ (8 < length bytes) → ltb 8 (length bytes) ≡ false
    no_more short = ground arith

-- `add(string_view)` returns, with fuel for every byte, and adds one to the count, a 64-bit word, for
-- each eight bytes begun, and one for the empty string.
pub add_string-Counts :
    (fuel : ℕ) (s : Signature) (bytes : List ℕ)
    → length bytes ≤ fuel
    → Counts fuel s bytes (chunks bytes)
unfolding add_string add_value
add_string-Counts fuel s [] enough = (add_value s 0, refl, refl)
add_string-Counts fuel s (b ∷ bytes) enough =
    let (t, added, count) = add_chunks-count fuel s (b ∷ bytes) (omega arith) enough in
    (t, ground (arith, added), count)

chunks-short : (bytes : List ℕ) → 0 < length bytes → length bytes ≤ 8 → chunks bytes ≡ 1
chunks-short [] pos short = absurd (omega arith)
chunks-short (b ∷ bytes) pos short = omega arith

count_apart :
    (n : ℕ) (t u : Signature)
    → t.count ≡ cast 64 (n + 1)
    → u.count ≡ cast 64 (n + 2)
    → same_signature t u ≡ false
unfolding same_signature
count_apart n t u e f =
    let apart : cast 64 (n + 1) ≢ cast 64 (n + 2) = λ same.
      absurd (omega (arith, mod_close (2 ^ 64) (n + 1) (n + 2) (omega arith) (omega arith) same)) in
    ground (arith, apart)

-- A string of at most eight bytes and its two pieces, neither empty, give different signatures, from
-- any signature and with fuel for eight bytes.
pub add_string-pieces :
    (fuel : ℕ) (s : Signature) (a b : List ℕ)
    → 0 < length a
    → 0 < length b
    → length a + length b ≤ 8
    → 8 ≤ fuel
    → (whole : Signature) × (first : Signature) × (pieces : Signature) × (add_string fuel s (a ++ b)
        ≡ some whole)
      × (add_string fuel s a ≡ some first)
      × (add_string fuel first b ≡ some pieces)
      × (same_signature whole pieces ≡ false)
add_string-pieces fuel s a b p q short enough =
    let total = length-append a b in
    let (t, whole, n) = add_string-Counts fuel s (a ++ b) (omega arith) in
    let (r, first, k) = add_string-Counts fuel s a (omega arith) in
    let (u, second, m) = add_string-Counts fuel r b (omega arith) in
    let one : chunks (a ++ b) ≡ 1 = chunks-short (a ++ b) (omega arith) (omega arith) in
    (
      t,
      r,
      u,
      whole,
      first,
      second,
      count_apart s.count t u (n ∙ ap (λ n. cast 64 (s.count + n)) one) (
          m
          ∙ ap (λ n. cast 64 (r.count + n)) (chunks-short b q (omega arith))
          ∙ ap (λ n. cast 64 (n + 1))
              (k ∙ ap (λ n. cast 64 (s.count + n)) (chunks-short a p (omega arith)))
          ∙ mod-add-mod (s.count + 1) (2 ^ 64) 1
          ∙ ap (λ n. cast 64 n) (omega arith)),
    )
