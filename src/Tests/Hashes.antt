-- ===== src/Tests/Hashes.antt =====
-- Signatures of short strings.
use lockfree_mpmc_queue.Base.{ℕ, ◌≡◌, List, [], ◌∷◌, some, false, arith}
use lockfree_mpmc_queue.Hash.{Signature, add_string, same_signature}
use lockfree_mpmc_queue.Hash.Count.{add_string-pieces}

abbrev seeded : Signature
seeded = record { state = 42; count = 0 }

-- "a"
abbrev letter : List ℕ
letter = 97 ∷ []

add_string-pieces_example :
    (whole : Signature) × (first : Signature) × (pieces : Signature) × (add_string 8 seeded
        (97 ∷ 97 ∷ [])
      ≡ some whole)
    × (add_string 8 seeded letter ≡ some first)
    × (add_string 8 first letter ≡ some pieces)
    × (same_signature whole pieces ≡ false)
add_string-pieces_example =
    add_string-pieces 8 seeded letter letter (omega arith) (omega arith) (omega arith) (omega arith)
