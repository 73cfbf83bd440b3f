-- ===== src/Base/Lists.antt =====
-- Arrays and sequences as lists with native indices.
use Prim.Native.Nat.{ℕ, zero, suc, ◌+◌, ◌<◌}
use mathlib.Core.Path.{◌≡◌, refl, ap}
use mathlib.Core.Logic.{◌≢◌}
use mathlib.Core.Option.{Option, none, some}
use mathlib.Core.List.{List, [], ◌∷◌, ◌++◌}
use native.Mathlib.Omega.{arith}

module _ {ℓ} {A : Type ℓ} where
  abbrev pub length : List A → ℕ
  length [] = 0
  length (_ ∷ xs) = suc (length xs)

  abbrev pub get_or : List A → ℕ → A → A
  get_or [] _ d = d
  get_or (x ∷ _) zero _ = x
  get_or (_ ∷ xs) (suc i) d = get_or xs i d

  -- A write out of range changes nothing.
  abbrev pub set : List A → ℕ → A → List A
  set [] _ _ = []
  set (_ ∷ xs) zero v = v ∷ xs
  set (x ∷ xs) (suc i) v = x ∷ set xs i v

  abbrev pub tail : List A → List A
  tail [] = []
  tail (_ ∷ xs) = xs

  pub length-append : (xs ys : List A) → length (xs ++ ys) ≡ length xs + length ys
  length-append [] ys = omega arith
  length-append (x ∷ xs) ys = omega (arith, length-append xs ys)

  pub length-set : (xs : List A) (i : ℕ) (v : A) → length (set xs i v) ≡ length xs
  length-set [] i v = refl
  length-set (x ∷ xs) zero v = refl
  length-set (x ∷ xs) (suc i) v = ap suc (length-set xs i v)

  pub get_or-set_self :
      (xs : List A) (i : ℕ) (v d : A) → i < length xs → get_or (set xs i v) i d ≡ v
  get_or-set_self [] i v d h = absurd (omega arith)
  get_or-set_self (x ∷ xs) zero v d h = refl
  get_or-set_self (x ∷ xs) (suc i) v d h = get_or-set_self xs i v d (omega arith)

  pub get_or-set_ne :
      (xs : List A) (i j : ℕ) (v d : A) → i ≢ j → get_or (set xs i v) j d ≡ get_or xs j d
  get_or-set_ne [] i j v d h = refl
  get_or-set_ne (x ∷ xs) zero zero v d h = absurd (h refl)
  get_or-set_ne (x ∷ xs) zero (suc j) v d h = refl
  get_or-set_ne (x ∷ xs) (suc i) zero v d h = refl
  get_or-set_ne (x ∷ xs) (suc i) (suc j) v d h = get_or-set_ne xs i j v d (λ e. h (ap suc e))

  pub get_or-snoc_lt :
      (xs : List A) (i : ℕ) (v d : A) → i < length xs → get_or (xs ++ v ∷ []) i d ≡ get_or xs i d
  get_or-snoc_lt [] i v d h = absurd (omega arith)
  get_or-snoc_lt (x ∷ xs) zero v d h = refl
  get_or-snoc_lt (x ∷ xs) (suc i) v d h = get_or-snoc_lt xs i v d (omega arith)

  pub get_or-snoc_last :
      (xs : List A) (i : ℕ) (v d : A) → i ≡ length xs → get_or (xs ++ v ∷ []) i d ≡ v
  get_or-snoc_last [] zero v d h = refl
  get_or-snoc_last [] (suc i) v d h = absurd (omega arith)
  get_or-snoc_last (x ∷ xs) zero v d h = absurd (omega arith)
  get_or-snoc_last (x ∷ xs) (suc i) v d h = get_or-snoc_last xs i v d (omega arith)

  abbrev pub replicate : ℕ → A → List A
  replicate zero _ = []
  replicate (suc n) x = x ∷ replicate n x

  pub length-replicate : (n : ℕ) (x : A) → length (replicate n x) ≡ n
  length-replicate zero x = refl
  length-replicate (suc n) x = ap suc (length-replicate n x)

  abbrev pub get? : List A → ℕ → Option A
  get? [] _ = none
  get? (x ∷ _) zero = some x
  get? (_ ∷ xs) (suc i) = get? xs i

  pub get?-set_self :
      (xs : List A) (i : ℕ) (v x : A) → get? xs i ≡ some x → get? (set xs i v) i ≡ some v
  get?-set_self [] i v x h = cc h
  get?-set_self (y ∷ xs) zero v x h = refl
  get?-set_self (y ∷ xs) (suc i) v x h = get?-set_self xs i v x h

  pub get?-set_ne : (xs : List A) (i j : ℕ) (v : A) → i ≢ j → get? (set xs i v) j ≡ get? xs j
  get?-set_ne [] i j v h = refl
  get?-set_ne (x ∷ xs) zero zero v h = absurd (h refl)
  get?-set_ne (x ∷ xs) zero (suc j) v h = refl
  get?-set_ne (x ∷ xs) (suc i) zero v h = refl
  get?-set_ne (x ∷ xs) (suc i) (suc j) v h = get?-set_ne xs i j v (λ e. h (ap suc e))
