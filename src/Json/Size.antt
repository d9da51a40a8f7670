-- ===== src/Json/Size.antt =====
-- The length of `json.dumps`, which writes every character outside printable ASCII by an escape, or two
-- outside the BMP. `gap` is the number of spaces behind a "," and a ":": none for separators=(",", ":")
-- and one by default.
use matrix_scanner_saas.Prelude.{ℕ, ◌+◌, ◌||◌, [], ◌∷◌, ◌==◌, ltb, if◌then◌else◌, length}
use matrix_scanner_saas.Text.{Text}
use matrix_scanner_saas.Json.{
  Value, Items, Fields, null, bool, int, float, str, arr, obj, nil, cons, end, field, show_int,
}

-- One character of a text, as JSON writes it.
unfoldable pub escaped_size : ℕ → ℕ
escaped_size c =
    if c == b'"' || c == b'\\' || c == 8 || c == 9 || c == 10 || c == 12 || c == 13
    then 2
    else if ltb c 32
    then 6
    else if ltb c 127
    then 1
    else if ltb c 65536
    then 6
    else 12

unfoldable pub chars_size : Text → ℕ
unfolding escaped_size
chars_size [] = 0
chars_size (c ∷ s) = escaped_size c + chars_size s

abbrev pub string_size : Text → ℕ
string_size s = chars_size s + 2

module _ (gap : ℕ) where
  unfoldable mutual
    pub dumps_size : Value → ℕ
    dumps_size null = 4
    dumps_size (bool b) = if b then 4 else 5
    dumps_size (int n) = length (show_int n)
    dumps_size (float r) = length r
    dumps_size (str s) = string_size s
    dumps_size (arr nil) = 2
    dumps_size (arr (cons v xs)) = 2 + dumps_size v + more_items_size xs
    dumps_size (obj end) = 2
    dumps_size (obj (field k v fs)) =
        2 + string_size k + (1 + gap) + dumps_size v + more_fields_size fs

    -- Each later item has a comma before it.
    pub more_items_size : Items → ℕ
    more_items_size nil = 0
    more_items_size (cons v xs) = (1 + gap) + dumps_size v + more_items_size xs

    pub more_fields_size : Fields → ℕ
    more_fields_size end = 0
    more_fields_size (field k v fs) =
        (1 + gap) + string_size k + (1 + gap) + dumps_size v + more_fields_size fs
