-- ===== src/Base/Loop.antt =====
-- `while (true)` loops: a pass of the body over the state either returns or goes round again.
use Prim.Native.Nat.{ℕ, zero, suc}
use mathlib.Core.Path.{◌≡◌, refl}
use mathlib.Core.Option.{Option, none, some}

pub data Pass {ℓ} (A : Type ℓ) : Type ℓ where
  again : Pass A
  return : A → Pass A

module _ {ℓ κ} {S : Type ℓ} {A : Type κ} where
  -- `none`: no pass returned within the fuel.
  abbrev pub resume : Pass A → S → (S → Option (A × S)) → Option (A × S)
  resume again s rest = rest s
  resume (return a) s rest = some (a, s)

  unfoldable pub forever : ℕ → (S → Pass A × S) → S → Option (A × S)
  forever zero body s = none
  forever (suc fuel) body s = let (pass, t) = body s in resume pass t (forever fuel body)

  -- One pass that returns ends the loop, with any fuel.
  pub forever-return :
      (fuel : ℕ) (body : S → Pass A × S) (s t : S) (a : A)
      → body s ≡ (return a, t)
      → forever (suc fuel) body s ≡ some (a, t)
  unfolding forever
  forever-return fuel body s t a e = rw e

  pub forever-again :
      (fuel : ℕ) (body : S → Pass A × S) (s t : S)
      → body s ≡ (again, t)
      → forever (suc fuel) body s ≡ forever fuel body t
  unfolding forever
  forever-again fuel body s t e = rw e

  -- A pass that goes round in the same state does so for ever.
  pub forever-stuck :
      (fuel : ℕ) (body : S → Pass A × S) (s : S) → body s ≡ (again, s) → forever fuel body s ≡ none
  unfolding forever
  forever-stuck zero body s e = refl
  forever-stuck (suc fuel) body s e = rw e (forever-stuck fuel body s e)

-- A chain of calls, each of which may run out of fuel.
infixl 5 ◌>>=◌
abbrev pub ◌>>=◌ {ℓ κ} : {A : Type ℓ} {B : Type κ} → Option A → (A → Option B) → Option B
none >>= f = none
some a >>= f = f a
