-- ===== src/AiContext/Sized.antt =====
-- Writing into an object: what is found there afterwards, and how its size changes.
use matrix_scanner_saas.Prelude.{ℕ, ◌+◌, ◌≡◌, inl, inr, false, some, arith, Bool-cases}
use matrix_scanner_saas.Text.{Text, text_eq}
use matrix_scanner_saas.Text.Laws.{text_eq_self, text_eq_iff}
use matrix_scanner_saas.Json.{Value, Fields, obj, end, field, get, put}
use matrix_scanner_saas.Json.Size.{dumps_size, more_fields_size}

pub get-put : (fs : Fields) (k : Text) (v : Value) → get (put fs k v) k ≡ some v
unfolding get put
get-put end k v = ground (arith, text_eq_self k)
get-put (field j w fs) k v = elim (Bool-cases (text_eq j k)) [
  | inl same ↦ ground (arith, same)
  | inr other ↦ ground (arith, other, get-put fs k v)
]

pub get-put_other :
    (fs : Fields) (k j : Text) (v : Value) → text_eq k j ≡ false → get (put fs k v) j ≡ get fs j
unfolding get put
get-put_other end k j v h = ground (arith, h)
get-put_other (field i w fs) k j v h = elim (Bool-cases (text_eq i k)) [
  | inl same ↦ ground (arith, same, h, text_eq_iff i k)
  | inr other ↦ ground (arith, other, get-put_other fs k j v h)
]

module _ (gap : ℕ) where
  more_fields_size-put :
      (fs : Fields) (k : Text) (v w : Value)
      → get fs k ≡ some v
      → more_fields_size gap (put fs k w) + dumps_size gap v
        ≡ more_fields_size gap fs + dumps_size gap w
  unfolding get put more_fields_size
  more_fields_size-put end k v w h = absurd (ground arith)
  more_fields_size-put (field j u fs) k v w h = elim (Bool-cases (text_eq j k)) [
    | inl same ↦ ground (arith, same)
    | inr other ↦
        let rest = more_fields_size-put fs k v w (ground (arith, other)) in
        ground (arith, other, rest)
  ]

  -- A value that is written over another changes the size by the difference of theirs.
  pub dumps_size-put :
      (fs : Fields) (k : Text) (v w : Value)
      → get fs k ≡ some v
      → dumps_size gap (obj (put fs k w)) + dumps_size gap v
        ≡ dumps_size gap (obj fs) + dumps_size gap w
  unfolding get put dumps_size
  dumps_size-put end k v w h = absurd (ground arith)
  dumps_size-put (field j u fs) k v w h = elim (Bool-cases (text_eq j k)) [
    | inl same ↦ ground (arith, same)
    | inr other ↦
        let rest = more_fields_size-put fs k v w (ground (arith, other)) in
        ground (arith, other, rest)
  ]

pub put-put : (fs : Fields) (k : Text) (v w : Value) → put (put fs k v) k w ≡ put fs k w
unfolding put
put-put end k v w = ground (arith, text_eq_self k)
put-put (field j u fs) k v w = elim (Bool-cases (text_eq j k)) [
  | inl same ↦ ground (arith, same)
  | inr other ↦ ground (arith, other, put-put fs k v w)
]
