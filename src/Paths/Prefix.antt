-- ===== src/Paths/Prefix.antt =====
-- `path_matches_prefix` on canonical paths is the prefix order on lists of components.
use matrix_scanner_saas.Prelude.{
  ◌≡◌, refl, sym, ◌∙◌, ap, Bool, true, false, ◌&&◌, List, [], ◌∷◌, ◌++◌, arith, ==_iff, All,
}
use mathlib.Core.List.{append-nil}
use matrix_scanner_saas.Prelude.Results.{ok}
use matrix_scanner_saas.Text.{Text, codes, slash, text_eq, starts_with, ends_with, join}
use matrix_scanner_saas.Text.Laws.{Lacks}
use matrix_scanner_saas.Paths.{render, drop_last_two, at_or_below, path_matches_prefix}
use matrix_scanner_saas.Paths.Canonical.{IsName, canonicalize_path-render}

-- The list `ms` is an initial part of the list `ns`.
unfoldable pub is_prefix : List Text → List Text → Bool
unfolding text_eq
is_prefix [] ns = true
is_prefix (b ∷ ms) [] = false
is_prefix (b ∷ ms) (a ∷ ns) = text_eq a b && is_prefix ms ns

-- Every component with a slash before it.
abbrev pub flat : List Text → Text
flat [] = []
flat (n ∷ ns) = slash ∷ (n ++ flat ns)

pub render-flat : (n : Text) (ns : List Text) → render (n ∷ ns) ≡ flat (n ∷ ns)
unfolding render join
render-flat n [] = ap (λ (t : Text). slash ∷ t) (sym (append-nil n))
render-flat n (m ∷ ns) = ap (λ (t : Text). slash ∷ (n ++ t)) (unfold render in render-flat m ns)

below_head :
    (a b : Text) (ns ms : List Text)
    → Lacks slash a
    → Lacks slash b
    → at_or_below (a ++ flat ns) (b ++ flat ms) ≡ (text_eq a b && at_or_below (flat ns) (flat ms))
unfolding at_or_below text_eq starts_with
below_head [] [] ns ms ha hb = refl
below_head [] (c ∷ b) [] ms ha hb = refl
below_head [] (c ∷ b) (a ∷ ns) ms ha hb = ground (arith, ==_iff slash c)
below_head (c ∷ a) [] ns [] ha hb = ground (arith, ==_iff slash c)
below_head (c ∷ a) [] ns (b ∷ ms) ha hb = ground (arith, ==_iff slash c)
below_head (c ∷ a) (d ∷ b) ns ms ha hb = ground (arith, below_head a b ns ms ha.1 hb.1)

-- On texts that are components with slashes before them, being at or below a base is being an
-- extension of its list of components.
pub at_or_below-flat :
    (ns ms : List Text)
    → All (Lacks slash) ns
    → All (Lacks slash) ms
    → at_or_below (flat ns) (flat ms) ≡ is_prefix ms ns
unfolding is_prefix
at_or_below-flat [] [] ha hb = unfold at_or_below text_eq in refl
at_or_below-flat (a ∷ ns) [] ha hb = unfold at_or_below text_eq starts_with in refl
at_or_below-flat [] (b ∷ ms) ha hb = unfold at_or_below text_eq starts_with in refl
at_or_below-flat (a ∷ ns) (b ∷ ms) ha hb =
    strip (a ++ flat ns) (b ++ flat ms)
    ∙ below_head a b ns ms ha.0 hb.0
    ∙ ap (λ (t : Bool). text_eq a b && t) (at_or_below-flat ns ms ha.1 hb.1)
  where
    strip : (s t : Text) → at_or_below (slash ∷ s) (slash ∷ t) ≡ at_or_below s t
    strip s t = unfold at_or_below text_eq starts_with in refl

-- The pattern form `/*` at the end of a prefix is another clause of the function.
abbrev pub ends_in_star : Text → Bool
ends_in_star s = ends_with s (codes "/*")

pub names-Lacks : (ns : List Text) → All IsName ns → All (Lacks slash) ns
names-Lacks [] h = tt
names-Lacks (n ∷ ns) h = (h.0.3, names-Lacks ns h.1)

-- For a canonical path with components `a ∷ ns` and a prefix with components `b ∷ ms` that does not
-- end in "/*", the test succeeds and says whether `b ∷ ms` is an initial part of `a ∷ ns`: a prefix
-- matches whole components only.
pub path_matches_prefix-is_prefix :
    (a b : Text) (ns ms : List Text)
    → All IsName (a ∷ ns)
    → All IsName (b ∷ ms)
    → ends_in_star (render (b ∷ ms)) ≡ false
    → path_matches_prefix (render (a ∷ ns)) (render (b ∷ ms)) ≡ ok (is_prefix (b ∷ ms) (a ∷ ns))
unfolding path_matches_prefix
path_matches_prefix-is_prefix a b ns ms ha hb star =
    rw (star, canonicalize_path-render (b ∷ ms) hb)
      (rw (render-flat a ns, render-flat b ms)
        (ap ok
          (at_or_below-flat (a ∷ ns) (b ∷ ms) (names-Lacks (a ∷ ns) ha) (names-Lacks (b ∷ ms) hb))))

star_end : (s : Text) → ends_in_star (s ++ codes "/*") ≡ true
unfolding ends_with text_eq
star_end [] = refl
star_end (c ∷ s) = ground (arith, star_end s)

drop_star : (s : Text) → drop_last_two (s ++ codes "/*") ≡ s
unfolding drop_last_two
drop_star [] = refl
drop_star (a ∷ []) = refl
drop_star (a ∷ b ∷ []) = refl
drop_star (a ∷ b ∷ c ∷ s) = ap (λ (t : Text). a ∷ t) (drop_star (b ∷ c ∷ s))

-- A prefix that ends in "/*" matches what the same prefix without it matches, the directory itself
-- included, and fails where the shorter prefix is not absolute.
pub path_matches_prefix-star :
    (path base : Text)
    → ends_in_star base ≡ false
    → path_matches_prefix path (base ++ codes "/*") ≡ path_matches_prefix path base
unfolding path_matches_prefix
path_matches_prefix-star path base plain = rw (star_end base, drop_star base, plain)

-- A canonical directory other than the root, as its components, that does not end in "/*".
abbrev pub IsDirectory : List Text → Type 0
IsDirectory [] = ⊥
IsDirectory (b ∷ ms) = All IsName (b ∷ ms) × (ends_in_star (render (b ∷ ms)) ≡ false)

-- The same for every canonical path, the root included.
pub path_matches_prefix-directory :
    (path dir : List Text)
    → All IsName path
    → IsDirectory dir
    → path_matches_prefix (render path) (render dir) ≡ ok (is_prefix dir path)
unfolding path_matches_prefix at_or_below is_prefix
path_matches_prefix-directory path [] hp hd = absurd hd
path_matches_prefix-directory (a ∷ ns) (b ∷ ms) hp hd =
    path_matches_prefix-is_prefix a b ns ms hp hd.0 hd.1
path_matches_prefix-directory [] (b ∷ ms) hp hd =
    rw (hd.1, canonicalize_path-render (b ∷ ms) hd.0)
      (rw (render-flat b ms) (ap ok (root_below b ms hd.0)))
  where
    root_below :
        (b : Text) (ms : List Text)
        → All IsName (b ∷ ms)
        → at_or_below (render []) (flat (b ∷ ms)) ≡ is_prefix (b ∷ ms) []
    root_below [] ms h = cc
    root_below (c ∷ b) ms h =
        unfold at_or_below render join text_eq starts_with is_prefix in ground arith
