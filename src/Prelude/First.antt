-- ===== src/Prelude/First.antt =====
-- The first item of a list that passes a test.
use mathlib.Core.Path.{◌≡◌, refl, ap}
use mathlib.Core.Logic.{inl, inr}
use mathlib.Core.Bool.{Bool, true, false}
use mathlib.Core.Option.{none, some}
use mathlib.Core.List.{List, [], ◌∷◌, ◌++◌}
use native.Mathlib.Omega.{arith}
use matrix_scanner_saas.Prelude.Tests.{Bool-cases}
use matrix_scanner_saas.Prelude.Lists.{first, any, All}

-- `x` passes the test and stands in the list behind items that do not.
pub record FirstAt {ℓ} {A : Type ℓ} (p : A → Bool) (x : A) (xs : List A) : Type ℓ where
  pub before : List A
  pub behind : List A
  pub splits : xs ≡ before ++ (x ∷ behind)
  pub passes : p x ≡ true
  pub none_before : any p before ≡ false

module _ {ℓ} {A : Type ℓ} (p : A → Bool) where
  pub first-FirstAt : (xs : List A) (x : A) → first p xs ≡ some x → FirstAt p x xs
  first-FirstAt [] x h = absurd (ground arith)
  first-FirstAt (y ∷ xs) x h = elim (Bool-cases (p y)) [
    | inl yes_here ↦
        let same : y ≡ x = ground arith in
        record {
          before = [];
          behind = xs;
          splits = ap (λ (z : A). z ∷ xs) same;
          passes = rw (← same) yes_here;
          none_before = refl;
        }
    | inr not_here ↦
        let later = first-FirstAt xs x (ground arith) in
        record {
          before = y ∷ later.before;
          behind = later.behind;
          splits = ap (λ (t : List A). y ∷ t) later.splits;
          passes = later.passes;
          none_before = rw not_here later.none_before;
        }
  ]

  pub first-none : (xs : List A) → first p xs ≡ none → any p xs ≡ false
  first-none [] h = refl
  first-none (y ∷ xs) h = ground (arith, first-none xs)

  pub first_passes : (xs : List A) (x : A) → first p xs ≡ some x → p x ≡ true
  first_passes [] x h = absurd (ground arith)
  first_passes (y ∷ xs) x h = ground (arith, first_passes xs x)

  pub first-All {κ} : (P : A → Type κ) (xs : List A) (x : A) → All P xs → first p xs ≡ some x → P x
  first-All P [] x all h = absurd (ground arith)
  first-All P (y ∷ xs) x all h = elim (Bool-cases (p y)) [
    | inl yes_here ↦ let same : y ≡ x = ground arith in rw (← same) all.0
    | inr not_here ↦ first-All P xs x all.1 (ground arith)
  ]

  pub first_absent : (xs : List A) → any p xs ≡ false → first p xs ≡ none
  first_absent [] h = refl
  first_absent (y ∷ xs) h = ground (arith, first_absent xs)
