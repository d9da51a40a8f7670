-- ===== src/AiContext/Digits.antt =====
-- The number of digits of a number, and why the rounds that write a size into the context settle.
use Prim.Native.Nat.{◌/◌}
use matrix_scanner_saas.Prelude.{
  ℕ, zero, suc, ◌+◌, ◌≤◌, ◌<◌, ◌≡◌, inl, inr, false, [], ◌∷◌, ltb, leb, length, arith, Bool-cases,
}
use matrix_scanner_saas.Text.{Text}
use matrix_scanner_saas.Json.{show_nat, digits_rev, back_onto}

-- len(str(n))
abbrev pub digits : ℕ → ℕ
digits n = length (show_nat n)

length-back_onto : (s acc : Text) → length (back_onto s acc) ≡ length s + length acc
length-back_onto [] acc = omega arith
length-back_onto (c ∷ s) acc = omega (arith, length-back_onto s (c ∷ acc))

digits_lem : (n : ℕ) → digits n ≡ length (digits_rev (suc n) n)
unfolding show_nat
digits_lem n = omega (arith, length-back_onto (digits_rev (suc n) n) [])

tenth_mono : (m n : ℕ) → m ≤ n → m / 10 ≤ n / 10
tenth_mono m n h = omega arith

tenth_below : (m f : ℕ) → 10 ≤ m → m < suc f → m / 10 < f
tenth_below m f large h = omega arith

tenth_proper : (m : ℕ) → 10 ≤ m → m / 10 < m
tenth_proper m h = omega arith

large_lem : (m : ℕ) → ltb m 10 ≡ false → 10 ≤ m
large_lem m h = ground arith

-- A larger number has as many digits or more.
digits_rev_mono :
    (f g m n : ℕ) → m < f → n < g → m ≤ n → length (digits_rev f m) ≤ length (digits_rev g n)
unfolding digits_rev
digits_rev_mono zero g m n hf hg h = omega arith
digits_rev_mono (suc f) zero m n hf hg h = omega arith
digits_rev_mono (suc f) (suc g) m n hf hg h = elim (Bool-cases (ltb m 10)) [
  | inl small ↦ ground arith
  | inr large ↦
      let smaller : length (digits_rev f (m / 10)) ≤ length (digits_rev g (n / 10)) =
        digits_rev_mono f g (m / 10) (n / 10) (tenth_below m f (large_lem m large) hf)
          (tenth_below n g (omega (arith, large_lem m large)) hg) (tenth_mono m n h) in
      ground arith
]

digits_mono : (m n : ℕ) → m ≤ n → digits m ≤ digits n
digits_mono m n h = omega (
  arith,
  digits_lem m,
  digits_lem n,
  digits_rev_mono (suc m) (suc n) m n (omega arith) (omega arith) h,
)

digits_pos : (n : ℕ) → 1 ≤ length (digits_rev (suc n) n)
unfolding digits_rev
digits_pos n = omega arith

digits_rev-bound : (f n : ℕ) → length (digits_rev f n) ≤ suc n
unfolding digits_rev
digits_rev-bound zero n = omega arith
digits_rev-bound (suc f) n = elim (Bool-cases (ltb n 10)) [
  | inl small ↦ ground arith
  | inr large ↦
      let rest : length (digits_rev f (n / 10)) ≤ suc (n / 10) = digits_rev-bound f (n / 10) in
      let big = large_lem n large in ground arith
]

-- A number that is less than ten times another, and ten, has at most one more digit.
digits_tenth : (m n : ℕ) → m / 10 ≤ n → digits m ≤ suc (digits n)
unfolding digits_rev
digits_tenth m n h = elim (Bool-cases (ltb m 10)) [
  | inl small ↦ ground (arith, digits_lem m)
  | inr large ↦
      let rest : length (digits_rev m (m / 10)) ≤ length (digits_rev (suc n) n) =
        digits_rev_mono m (suc n) (m / 10) n (tenth_proper m (large_lem m large)) (omega arith) h in
      ground (arith, digits_lem m, digits_lem n)
]

-- The size of a context of which the size itself is written in two places.
abbrev pub size_with : ℕ → ℕ → ℕ
size_with base written = base + (digits written + digits written)

-- The third size that is written is right.
pub size_with_settles :
    (base : ℕ)
    → let third = size_with base (size_with base (size_with base 0)) in size_with base third ≡ third
size_with_settles base =
    let x1 = size_with base 0 in
    let x2 = size_with base x1 in
    let x3 = size_with base x2 in
    let p0 : 1 ≤ digits 0 = omega (arith, digits_lem 0, digits_pos 0) in
    let p1 : digits x1 ≤ suc x1 = omega (arith, digits_lem x1, digits_rev-bound (suc x1) x1) in
    let m1 : digits 0 ≤ digits x1 = digits_mono 0 x1 (omega arith) in
    let m2 : digits x1 ≤ digits x2 = digits_mono x1 x2 (omega (arith, m1)) in
    let m3 : digits x2 ≤ digits x3 = digits_mono x2 x3 (omega (arith, m2)) in
    let t2 : digits x2 ≤ suc (digits x1) = digits_tenth x2 x1 (omega (arith, p0, p1)) in
    let t3 : digits x3 ≤ suc (digits x1) = digits_tenth x3 x1 (omega (arith, p0, p1, t2)) in
    let m4 : digits x3 ≤ digits x2 = elim (Bool-cases (leb (digits x2) (digits x1))) [
      | inl same ↦ digits_mono x3 x2 (ground (arith, same))
      | inr more ↦ ground (arith, more, t3)
    ] in
    omega (arith, m3, m4)
