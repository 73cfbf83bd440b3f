-- ===== src/Queue/Words.antt =====
-- mpmc_queue.h, the class `entry` as the machine word it is: the value in the lowest bits, the sequence
-- above it, and what lies between and beyond them kept at zero, so that words can be compared.
use native.Mathlib.Nat.{
  mod-one, div-one, div-eq_of_lt, mod-eq_of_lt, add-mul-div_right, add-mul-mod_self_right,
  mul_assoc, one-le-pow, pow-le-pow_right, mul-div_left,
}
use lockfree_mpmc_queue.Base.{
  ℕ, ◌+◌, ◌*◌, ◌/◌, ◌%◌, ◌^◌, ◌<◌, ◌≡◌, refl, sym, ap, ap₂, ◌∙◌, arith, ◌==◌, Bool-cases, inl,
  eq_of_==, ==_of_eq, inr,
}
use lockfree_mpmc_queue.Base.Word.{pow-split}
use lockfree_mpmc_queue.Queue.{Entry, entry_of, same_entry}

-- `sizeof(value_type)`, the gap that aligns the sequence, and `sizeof(index_type)`, in bits.
pub record Packing : Type 0 where
  pub data_bits : ℕ
  pub gap : ℕ
  pub seq_bits : ℕ

abbrev pub seq_at : Packing → ℕ
seq_at l = l.data_bits + l.gap

-- A member of the union is read, and written, at its place and with its width.
unfoldable pub member : ℕ → ℕ → ℕ → ℕ
member at width word = word / 2 ^ at % 2 ^ width

unfoldable pub assign : ℕ → ℕ → ℕ → ℕ → ℕ
assign at width value word =
    word / 2 ^ (at + width) * 2 ^ (at + width) + value % 2 ^ width * 2 ^ at + word % 2 ^ at

-- `set(s, d)`, and `set_seq(s)`; `clear()` comes first.
unfoldable pub set_word : Packing → ℕ → ℕ → ℕ
set_word l s d = assign 0 l.data_bits d (assign (seq_at l) l.seq_bits s 0)

unfoldable pub set_seq_word : Packing → ℕ → ℕ
set_seq_word l s = assign (seq_at l) l.seq_bits s 0

-- `entry(s, d)`
unfoldable pub entry_word : Packing → ℕ → ℕ → ℕ
entry_word l s d = assign (seq_at l) l.seq_bits s (assign 0 l.data_bits d 0)

-- `get_seq()` and `get_data()`
unfoldable pub get_seq : Packing → ℕ → ℕ
get_seq l word = member (seq_at l) l.seq_bits word

unfoldable pub get_data : Packing → ℕ → ℕ
get_data l word = member 0 l.data_bits word

-- What a word holds.
unfoldable pub entry_in : Packing → ℕ → Entry
entry_in l word = entry_of (get_seq l word) (get_data l word)

pow_pos : (n : ℕ) → 0 < 2 ^ n
pow_pos n = one-le-pow n 2 (omega arith)

-- Members of a cleared word, and of one that holds only what the other member put there.
assign-cleared : (at width v : ℕ) → v < 2 ^ width → assign at width v 0 ≡ v * 2 ^ at
unfolding assign
assign-cleared at width v small =
    rw (div-eq_of_lt (pow_pos (at + width)), mod-eq_of_lt (pow_pos at), mod-eq_of_lt small)
      (omega arith)

assign-low : (width v k : ℕ) → v < 2 ^ width → assign 0 width v (k * 2 ^ width) ≡ v + k * 2 ^ width
unfolding assign
assign-low width v k small =
    let none_below : k * 2 ^ width % 2 ^ 0 ≡ 0 = mod-one (k * 2 ^ width) in
    let whole : k * 2 ^ width / 2 ^ width ≡ k = mul-div_left k (pow_pos width) in
    rw (add_zero_left width) (rw (whole, mod-eq_of_lt small, none_below) (omega arith))
  where
    add_zero_left : (n : ℕ) → 0 + n ≡ n
    add_zero_left n = omega arith

assign-high : (at width v w : ℕ) → v < 2 ^ width → w < 2 ^ at → assign at width v w ≡ w + v * 2 ^ at
unfolding assign
assign-high at width v w small low =
    let within = pow-le-pow_right {n = 2} (omega arith) {i = at} {j = at + width} (omega arith) in
    rw
      (
        div-eq_of_lt {n = w} {m = 2 ^ (at + width)} (omega (arith, within)),
        mod-eq_of_lt low,
        mod-eq_of_lt small,
      )
      (omega arith)

module _ (l : Packing) (s d : ℕ) (seq_fits : s < 2 ^ l.seq_bits)
    (data_fits : d < 2 ^ l.data_bits) where
  packed : ℕ
  packed = d + s * 2 ^ seq_at l

  above : s * 2 ^ seq_at l ≡ s * 2 ^ l.gap * 2 ^ l.data_bits
  above =
      ap (λ n. s * n)
        (ap (λ n. 2 ^ n) {y = l.gap + l.data_bits} (omega arith) ∙ pow-split l.gap l.data_bits)
      ∙ sym (mul_assoc s (2 ^ l.gap) (2 ^ l.data_bits))

  below : d < 2 ^ seq_at l
  below =
      let wider =
        pow-le-pow_right {n = 2} (omega arith) {i = l.data_bits} {j = l.data_bits + l.gap}
          (omega arith) in
      omega (arith, wider)

  set_word-packed : set_word l s d ≡ d + s * 2 ^ seq_at l
  unfolding set_word
  set_word-packed =
      ap (assign 0 l.data_bits d) (assign-cleared (seq_at l) l.seq_bits s seq_fits ∙ above)
      ∙ assign-low l.data_bits d (s * 2 ^ l.gap) data_fits
      ∙ ap (λ n. d + n) (sym above)

  entry_word-packed : entry_word l s d ≡ d + s * 2 ^ seq_at l
  unfolding entry_word
  entry_word-packed =
      ap (assign (seq_at l) l.seq_bits s) (assign-cleared 0 l.data_bits d data_fits ∙ omega arith)
      ∙ assign-high (seq_at l) l.seq_bits s d seq_fits below

  get_seq-packed : get_seq l (d + s * 2 ^ seq_at l) ≡ s
  unfolding get_seq member
  get_seq-packed =
      ap (λ n. n % 2 ^ l.seq_bits)
        (add-mul-div_right d s (pow_pos (seq_at l))
          ∙ ap (λ n. n + s) (div-eq_of_lt below)
          ∙ omega arith)
      ∙ mod-eq_of_lt seq_fits

  get_data-packed : get_data l (d + s * 2 ^ seq_at l) ≡ d
  unfolding get_data member
  get_data-packed =
      ap (λ n. n % 2 ^ l.data_bits) (div-one (d + s * 2 ^ seq_at l) ∙ ap (λ n. d + n) above)
      ∙ add-mul-mod_self_right d (s * 2 ^ l.gap) (2 ^ l.data_bits)
      ∙ mod-eq_of_lt data_fits

-- A value and a sequence of these widths.
abbrev pub Fits : Packing → Entry → Type 0
Fits l e = (e.seq < 2 ^ l.seq_bits) × (e.item < 2 ^ l.data_bits)

abbrev pub word_of : Packing → Entry → ℕ
word_of l e = entry_word l e.seq e.item

-- The word of an entry holds it, whichever way it was written.
pub entry_in-word_of :
    (l : Packing) (e : Entry)
    → Fits l e
    → (entry_in l (word_of l e) ≡ e) × (set_word l e.seq e.item ≡ word_of l e)
unfolding entry_in
entry_in-word_of l e (seq_fits, data_fits) =
    let packed = entry_word-packed l e.seq e.item seq_fits data_fits in
    (
      ap₂ entry_of (ap (get_seq l) packed ∙ get_seq-packed l e.seq e.item seq_fits data_fits)
          (ap (get_data l) packed ∙ get_data-packed l e.seq e.item seq_fits data_fits),
      set_word-packed l e.seq e.item seq_fits data_fits ∙ sym packed,
    )

-- For entries that fit their layout: to compare two as machine words, as compare_exchange does, is to
-- compare their values and their sequences, and a word gives back the value and the sequence that were
-- put in it.
pub word_of-same_entry :
    (l : Packing) (e f : Entry)
    → Fits l e
    → Fits l f
    → ((word_of l e == word_of l f) ≡ same_entry e f) × (entry_in l (word_of l e) ≡ e)
word_of-same_entry l e f fits fits' =
    let back = (entry_in-word_of l e fits).0 in
    (
      elim (Bool-cases (word_of l e == word_of l f)) [
        | inl same ↦
            let one : e ≡ f =
              sym back ∙ ap (entry_in l) (eq_of_== _ _ same) ∙ (entry_in-word_of l f fits').0 in
            same ∙ sym (rw one (rw (==_of_eq f.item f.item refl, ==_of_eq f.seq f.seq refl) refl))
        | inr other ↦ elim (Bool-cases (same_entry e f)) [
          | inl same ↦
              let items : e.item ≡ f.item = ground (arith, same) in
              let seqs : e.seq ≡ f.seq = ground (arith, same) in
              let words : word_of l e ≡ word_of l f = ap₂ (entry_word l) seqs items in
              absurd (cc (==_of_eq _ _ words, other))
          | inr apart ↦ other ∙ sym apart
        ]
      ],
      back,
    )
