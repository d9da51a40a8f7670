-- ===== src/Text.antt =====
-- Python's `str` as the list of its code points, with the methods of `str` that the program calls:
-- equality, `startswith`, `endswith`, `in`, `split`, `join`, `replace`.
pub mod Laws
pub mod Replace
use Prim.Native.Char.{code}
use matrix_scanner_saas.Prelude.{
  ℕ, zero, suc, String, Bool, true, false, ◌&&◌, ◌||◌, List, [], ◌∷◌, ◌++◌, ◌-◌, length, ◌==◌,
  if◌then◌else◌, drop, any, not, leb,
}
use mathlib.Core.List.{reverse}

abbrev pub Text : Type 0
Text = List ℕ

-- A literal of the source, as its code points. `String` has its own `[]` and `∷`.
abbrev pub codes : String → Text
codes String.[] = []
codes (String.◌∷◌ c s) = code c ∷ codes s

abbrev pub slash : ℕ
slash = b'/'

-- s == t
unfoldable pub text_eq : Text → Text → Bool
text_eq [] [] = true
text_eq [] (d ∷ t) = false
text_eq (c ∷ s) [] = false
text_eq (c ∷ s) (d ∷ t) = c == d && text_eq s t

-- s.startswith(prefix)
unfoldable pub starts_with : Text → Text → Bool
starts_with s [] = true
starts_with [] (d ∷ p) = false
starts_with (c ∷ s) (d ∷ p) = c == d && starts_with s p

-- s.endswith(suffix)
unfoldable pub ends_with : Text → Text → Bool
unfolding text_eq
ends_with [] suffix = text_eq [] suffix
ends_with (c ∷ s) suffix = text_eq (c ∷ s) suffix || ends_with s suffix

-- part in s
unfoldable pub contains : Text → Text → Bool
unfolding starts_with
contains [] part = starts_with [] part
contains (c ∷ s) part = starts_with (c ∷ s) part || contains s part

-- s in (t, u, ...)
unfoldable pub one_of : Text → List Text → Bool
unfolding text_eq
one_of s ts = any (text_eq s) ts

-- The first field and the others, of a text that is split at `sep`.
abbrev onto_first : ℕ → List Text → List Text
onto_first c [] = (c ∷ []) ∷ []
onto_first c (f ∷ fs) = (c ∷ f) ∷ fs

-- s.split(sep), for a separator of one character
unfoldable pub split : ℕ → Text → List Text
split sep [] = [] ∷ []
split sep (c ∷ s) =
    let fields = split sep s in if c == sep then [] ∷ fields else onto_first c fields

-- sep.join(parts), for a separator of one character
unfoldable pub join : ℕ → List Text → Text
join sep [] = []
join sep (p ∷ []) = p
join sep (p ∷ q ∷ ps) = p ++ (sep ∷ join sep (q ∷ ps))

-- s.replace(old, new), for an `old` that is not empty: after an occurrence the next `skip` characters
-- are passed over.
unfoldable pub replace_from : ℕ → Text → Text → Text → Text
unfolding starts_with
replace_from skip old new [] = []
replace_from (suc skip) old new (c ∷ s) = replace_from skip old new s
replace_from zero old new (c ∷ s) =
    let here = starts_with (c ∷ s) old in
    let rest = replace_from (if here then length old - 1 else 0) old new s in
    if here then new ++ rest else c ∷ rest

unfoldable pub replace : Text → Text → Text → Text
unfolding replace_from
replace s old new = replace_from 0 old new s

-- The part of `s` behind its last `sep`; `best` is what the parts read so far give.
unfoldable pub behind : ℕ → Text → Text → Text
behind sep best [] = best
behind sep best (c ∷ rest) = behind sep (if c == sep then rest else best) rest

-- s.rsplit(sep, 1)[-1]: what stands behind the last `sep`, or all of `s`.
unfoldable pub after_last : ℕ → Text → Text
unfolding behind
after_last sep s = behind sep s s

-- The characters at which `splitlines` breaks.
abbrev pub is_line_break : ℕ → Bool
is_line_break c =
    (leb 10 c && leb c 13) || (leb 28 c && leb c 30) || c == 133 || c == 8232 || c == 8233

-- s.splitlines(): the line that is being read, backwards, is `line`; `open` says that it has begun,
-- and `cr` that the last character was a carriage return, which a line feed belongs to.
abbrev close_line : Bool → Text → List Text
close_line true line = reverse line ∷ []
close_line false line = []

unfoldable pub lines_from : Bool → Bool → Text → Text → List Text
lines_from begun cr line [] = close_line begun line
lines_from begun cr line (c ∷ s) =
    let joined = cr && c == 10 in
    let broken = is_line_break c in
    let rest = lines_from (not broken) (c == 13) (if broken then [] else c ∷ line) s in
    let skipped = lines_from false false [] s in
    if joined then skipped else if broken then reverse line ∷ rest else rest

unfoldable pub splitlines : Text → List Text
unfolding lines_from
splitlines s = lines_from false false [] s

-- The characters that `strip` takes away.
abbrev pub is_space : ℕ → Bool
is_space c =
    (leb 9 c && leb c 13)
    || (leb 28 c && leb c 32)
    || c == 133
    || c == 160
    || c == 5760
    || (leb 8192 c && leb c 8202)
    || c == 8232
    || c == 8233
    || c == 8239
    || c == 8287
    || c == 12288

unfoldable pub lstrip : Text → Text
lstrip [] = []
lstrip (c ∷ s) = if is_space c then lstrip s else c ∷ s

-- s.strip()
unfoldable pub strip : Text → Text
unfolding lstrip
strip s = reverse (lstrip (reverse (lstrip s)))
