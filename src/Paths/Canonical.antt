-- ===== src/Paths/Canonical.antt =====
-- The result of `canonicalize_path` is a rendered list of ordinary components, and is a fixed point.
use matrix_scanner_saas.Prelude.{
  ◌≡◌, refl, sym, ◌∙◌, ap, Bool, true, false, not, ◌&&◌, List, [], ◌∷◌, ◌++◌, arith, ==_iff,
  Bool-cases, keep, All, All-append, inl, inr,
}
use mathlib.Core.List.{append-nil, append_assoc}
use matrix_scanner_saas.Prelude.Results.{ok, err}
use matrix_scanner_saas.Text.{Text, codes, slash, text_eq, starts_with, split, join}
use matrix_scanner_saas.Text.Laws.{Lacks, split-join, split-Lacks}
use matrix_scanner_saas.Paths.{
  dot, dot_dot, not_absolute, root_and_rest, is_component, pure_posix_parts, pop, add_part,
  add_parts, render, canonicalize_path,
}

-- A component that survives `PurePosixPath.parts`.
abbrev pub IsComponent : Text → Type 0
IsComponent n = (text_eq n [] ≡ false) × (text_eq n dot ≡ false) × Lacks slash n

-- An ordinary component: not empty, not `.` or `..`, and without a slash.
abbrev pub IsName : Text → Type 0
IsName n =
    (text_eq n [] ≡ false) × (text_eq n dot ≡ false) × (text_eq n dot_dot ≡ false) × Lacks slash n

-- A path that POSIX roots at `//`: exactly two leading slashes.
abbrev pub double_root : Text → Bool
double_root s = starts_with s (codes "//") && not (starts_with s (codes "///"))

root_of_single :
    (s : Text)
    → starts_with s (slash ∷ []) ≡ true
    → double_root s ≡ false
    → (root_and_rest s).0 ≡ slash ∷ []
unfolding root_and_rest starts_with
root_of_single [] h d = cc
root_of_single (a ∷ []) h d = ground (arith, ==_iff a slash)
root_of_single (a ∷ b ∷ []) h d = ground (arith, ==_iff a slash, ==_iff b slash)
root_of_single (a ∷ b ∷ c ∷ s) h d = ground (arith, ==_iff a slash, ==_iff b slash, ==_iff c slash)

keep-IsComponent : (ps : List Text) → All (Lacks slash) ps → All IsComponent (keep is_component ps)
unfolding is_component
keep-IsComponent [] h = tt
keep-IsComponent (p ∷ ps) h = ground (arith, keep-IsComponent ps)

pop-All : (ps : List Text) → All IsName ps → All IsName (pop ps)
unfolding pop
pop-All [] h = tt
pop-All (p ∷ []) h = tt
pop-All (p ∷ q ∷ ps) h = (h.0, pop-All (q ∷ ps) h.1)

add_part-All :
    (ps : List Text) (part : Text)
    → All IsName ps
    → IsComponent part
    → All IsName (add_part ps part)
unfolding add_part
add_part-All ps part h c = ground (
  arith,
  pop-All ps,
  λ (e : text_eq part dot_dot ≡ false). All-append IsName ps (part ∷ []) h ((c.0, c.1, e, c.2), tt),
)

add_parts-All :
    (ps rest : List Text) → All IsName ps → All IsComponent rest → All IsName (add_parts ps rest)
unfolding add_parts
add_parts-All ps [] h c = h
add_parts-All ps (part ∷ rest) h c =
    add_parts-All (add_part ps part) rest (add_part-All ps part h c.0) c.1

-- The components that `canonicalize_path` renders.
abbrev pub components : Text → List Text
components s = add_parts [] (pure_posix_parts s)

root_skipped : (rest : List Text) → add_parts [] ((slash ∷ []) ∷ rest) ≡ add_parts [] rest
unfolding add_parts add_part
root_skipped rest = refl

pub components-IsName :
    (s : Text)
    → starts_with s (slash ∷ []) ≡ true
    → double_root s ≡ false
    → All IsName (components s)
unfolding pure_posix_parts
components-IsName s h d = rw (root_of_single s h d) (
    rw root_skipped
      (add_parts-All [] _ tt (keep-IsComponent _ (split-Lacks slash (root_and_rest s).1))))

keep-names : (ns : List Text) → All IsName ns → keep is_component ns ≡ ns
unfolding is_component
keep-names [] h = refl
keep-names (n ∷ ns) h = ground (arith, keep-names ns)

not_slash : (n : Text) → Lacks slash n → text_eq n (slash ∷ []) ≡ false
unfolding text_eq
not_slash [] h = refl
not_slash (c ∷ n) h = rw h.0

add_part-name : (ps : List Text) (n : Text) → IsName n → add_part ps n ≡ ps ++ (n ∷ [])
unfolding add_part
add_part-name ps n h = ground (arith, not_slash n h.3)

pub add_parts-names : (ps ns : List Text) → All IsName ns → add_parts ps ns ≡ ps ++ ns
unfolding add_parts
add_parts-names ps [] h = sym (append-nil ps)
add_parts-names ps (n ∷ ns) h =
    rw (add_part-name ps n h.0)
      (add_parts-names (ps ++ (n ∷ [])) ns h.1 ∙ append_assoc ps (n ∷ []) ns)

root_of_render :
    (ns : List Text) → All IsName ns → root_and_rest (render ns) ≡ (slash ∷ [], join slash ns)
unfolding root_and_rest render join text_eq
root_of_render [] h = refl
root_of_render ([] ∷ ns) h = cc
root_of_render ((c ∷ []) ∷ []) h = ground arith
root_of_render ((c ∷ d ∷ n) ∷ []) h = ground arith
root_of_render ((c ∷ []) ∷ m ∷ ns) h = ground arith
root_of_render ((c ∷ d ∷ n) ∷ m ∷ ns) h = ground arith

names-lack : (ns : List Text) → All IsName ns → All (Lacks slash) ns
names-lack [] h = tt
names-lack (n ∷ ns) h = (h.0.3, names-lack ns h.1)

pub split-names :
    (ns : List Text) → All IsName ns → keep is_component (split slash (join slash ns)) ≡ ns
split-names [] h = unfold join split is_component text_eq in refl
split-names (n ∷ ns) h = rw (split-join slash n ns (names-lack (n ∷ ns) h)) (keep-names (n ∷ ns) h)

parts_of_render :
    (ns : List Text) → All IsName ns → pure_posix_parts (render ns) ≡ (slash ∷ []) ∷ ns
unfolding pure_posix_parts
parts_of_render ns h =
    rw (root_of_render ns h) (ap (λ (t : List Text). (slash ∷ []) ∷ t) (split-names ns h))

-- A rendered list of ordinary components is its own canonical form.
pub canonicalize_path-render :
    (ns : List Text) → All IsName ns → canonicalize_path (render ns) ≡ ok (render ns)
unfolding canonicalize_path
canonicalize_path-render ns h = ap ok (
    ap render
      (ap (add_parts []) (parts_of_render ns h) ∙ root_skipped ns ∙ add_parts-names [] ns h))

-- A path that begins with a slash, and not with exactly two, has a canonical form: "/" and the
-- joined list of components none of which is empty, "." or "..", or holds a slash.
pub canonicalize_path-IsName :
    (s : Text)
    → starts_with s (slash ∷ []) ≡ true
    → double_root s ≡ false
    → (names : List Text) × All IsName names × (canonicalize_path s ≡ ok (render names))
unfolding canonicalize_path
canonicalize_path-IsName s h d = (components s, components-IsName s h d, rw h)

relative_fails :
    (s : Text) → starts_with s (slash ∷ []) ≡ false → canonicalize_path s ≡ err not_absolute
unfolding canonicalize_path
relative_fails s h = rw h

-- Canonicalising twice is canonicalising once, for a path that does not begin with exactly two
-- slashes: the result of a successful call is returned as it is by a second call.
pub canonicalize_path_idem :
    (s p : Text) → double_root s ≡ false → canonicalize_path s ≡ ok p → canonicalize_path p ≡ ok p
canonicalize_path_idem s p d e = elim (Bool-cases (starts_with s (slash ∷ []))) [
  | inl h ↦
      let (names, good, found) = canonicalize_path-IsName s h d in
      let same : p ≡ render names = cc in rw same (canonicalize_path-render names good)
  | inr h ↦ cc (relative_fails s h)
]
