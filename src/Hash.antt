-- ===== src/Hash.antt =====
-- src/hash_signature.h: a running hash with a count of the values added.
pub mod Count
use lockfree_mpmc_queue.Base.{
  ℕ, zero, suc, ◌+◌, ◌*◌, ◌/◌, ◌%◌, Bool, ◌&&◌, List, [], ◌∷◌, length, Option, none, some, ◌==◌,
  ltb, if◌then◌else◌,
}
use lockfree_mpmc_queue.Base.Word.{cast}

pub record Signature : Type 0 where
  pub state : ℕ
  pub count : ℕ

-- `hash_signature(seed)`: 0xA5A5A5A5A5A5A5A5 is added.
unfoldable pub make_signature : ℕ → Signature
make_signature seed = record { state = cast 64 (seed + 11936128518282651045); count = 0 }

-- The ones among the lowest binary digits.
abbrev pub ones : ℕ → ℕ → ℕ
ones zero v = 0
ones (suc n) v = v % 2 + ones n (v / 2)

-- `__builtin_popcount` takes an `unsigned`.
unfoldable pub popcount : ℕ → ℕ
popcount v = ones 32 (cast 32 v)

-- `if (__builtin_popcount(v) < 20) v += 0xA500A500A5A5`
unfoldable pub thicken : ℕ → ℕ
thicken v = if ltb (popcount v) 20 then cast 64 (v + 181422186866085) else v

-- `add(value_type)`
unfoldable pub add_value : Signature → ℕ → Signature
add_value s value =
    let v = thicken value in
    record {
      state =
          cast 64 (cast 64 (v + s.state) * cast 64 (cast 64 (v * 8) + cast 64 (s.state * 2) + 1));
      count = cast 64 (s.count + 1);
    }

-- `memcpy` of at most `n` bytes into a cleared value, lowest byte first.
abbrev pub load_bytes : ℕ → List ℕ → ℕ
load_bytes zero bytes = 0
load_bytes (suc n) [] = 0
load_bytes (suc n) (b ∷ bytes) = b + 256 * load_bytes n bytes

abbrev pub drop : ℕ → List ℕ → List ℕ
drop zero bytes = bytes
drop (suc n) [] = []
drop (suc n) (b ∷ bytes) = drop n bytes

-- The loop of `add(string_view)`; `none` means that the fuel ran out.
unfoldable pub add_chunks : ℕ → Signature → List ℕ → Option Signature
add_chunks zero s bytes = none
add_chunks (suc fuel) s bytes =
    let t = add_value s (load_bytes 8 bytes) in
    let rest = add_chunks fuel t (drop 8 bytes) in
    if ltb 0 (length bytes) then (if ltb 8 (length bytes) then rest else some t) else some s

-- `add(string_view)`
unfoldable pub add_string : ℕ → Signature → List ℕ → Option Signature
add_string fuel s bytes =
    if length bytes == 0 then some (add_value s 0) else add_chunks fuel s bytes

-- `operator==`
unfoldable pub same_signature : Signature → Signature → Bool
same_signature s t = s.state == t.state && s.count == t.count
