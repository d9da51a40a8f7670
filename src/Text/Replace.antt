-- ===== src/Text/Replace.antt =====
-- Replacing a text that does not occur changes nothing.
use matrix_scanner_saas.Prelude.{ℕ, ◌≡◌, refl, ap, false, [], ◌∷◌, arith, ||_false}
use matrix_scanner_saas.Text.{Text, starts_with, contains, replace, replace_from}

replace_from-absent : (s old new : Text) → contains s old ≡ false → replace_from 0 old new s ≡ s
unfolding replace_from contains
replace_from-absent [] old new h = refl
replace_from-absent (c ∷ s) old new h =
    let (here, later) = ||_false (starts_with (c ∷ s) old) (contains s old) h in
    rw here (ap (λ (t : Text). c ∷ t) (replace_from-absent s old new later))

pub replace-absent : (s old new : Text) → contains s old ≡ false → replace s old new ≡ s
unfolding replace
replace-absent s old new h = replace_from-absent s old new h

starts_with-longer :
    (s : Text) (c : ℕ) (t : Text) → starts_with s (c ∷ []) ≡ false → starts_with s (c ∷ t) ≡ false
unfolding starts_with
starts_with-longer [] c t h = refl
starts_with-longer (d ∷ s) c t h = ground arith

-- A text that does not hold a character holds no text that begins with it.
pub contains-longer :
    (s : Text) (c : ℕ) (t : Text) → contains s (c ∷ []) ≡ false → contains s (c ∷ t) ≡ false
unfolding contains
contains-longer [] c t h = starts_with-longer [] c t h
contains-longer (d ∷ s) c t h =
    ground (arith, starts_with-longer (d ∷ s) c t, contains-longer s c t)
