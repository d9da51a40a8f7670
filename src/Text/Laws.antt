-- ===== src/Text/Laws.antt =====
-- Equality of texts is decided by `text_eq`; splitting undoes joining.
use matrix_scanner_saas.Prelude.{
  ℕ, ◌≡◌, refl, ◌∙◌, ◌↔◌, true, false, ap, List, [], ◌∷◌, ◌++◌, arith, ◌==◌, ==_self, All,
}
use matrix_scanner_saas.Text.{Text, text_eq, split, join}

pub text_eq_self : (s : Text) → text_eq s s ≡ true
unfolding text_eq
text_eq_self [] = refl
text_eq_self (c ∷ s) = ground (arith, ==_self c, text_eq_self s)

pub eq_of_text_eq : (s t : Text) → text_eq s t ≡ true → s ≡ t
unfolding text_eq
eq_of_text_eq [] [] h = refl
eq_of_text_eq [] (d ∷ t) h = cc
eq_of_text_eq (c ∷ s) [] h = cc
eq_of_text_eq (c ∷ s) (d ∷ t) h = ground (arith, eq_of_text_eq s t)

pub text_eq_iff : (s t : Text) → (text_eq s t ≡ true) ↔ (s ≡ t)
text_eq_iff s t = (eq_of_text_eq s t, λ e. rw e (text_eq_self t))

-- No character of the text is `sep`.
abbrev pub Lacks : ℕ → Text → Type 0
Lacks sep = All (λ c. (c == sep) ≡ false)

split-append : (sep : ℕ) (p s : Text) → Lacks sep p → split sep (p ++ (sep ∷ s)) ≡ p ∷ split sep s
unfolding split
split-append sep [] s h = rw (==_self sep)
split-append sep (c ∷ p) s h = rw (h.0, split-append sep p s h.1)

split-Lacks_same : (sep : ℕ) (p : Text) → Lacks sep p → split sep p ≡ p ∷ []
unfolding split
split-Lacks_same sep [] h = refl
split-Lacks_same sep (c ∷ p) h = rw (h.0, split-Lacks_same sep p h.1)

-- Splitting undoes joining, for a list that is not empty and whose parts hold no separator.
pub split-join :
    (sep : ℕ) (p : Text) (ps : List Text)
    → All (Lacks sep) (p ∷ ps)
    → split sep (join sep (p ∷ ps)) ≡ p ∷ ps
unfolding join
split-join sep p [] h = split-Lacks_same sep p h.0
split-join sep p (q ∷ ps) h =
    split-append sep p (join sep (q ∷ ps)) h.0
    ∙ ap (λ (t : List Text). p ∷ t) (split-join sep q ps h.1)

-- The fields of a split hold no separator.
pub split-Lacks : (sep : ℕ) (s : Text) → All (Lacks sep) (split sep s)
unfolding split
split-Lacks sep [] = (tt, tt)
split-Lacks sep (c ∷ s) = ground (arith, split-Lacks sep s)
