-- ===== src/Paths/Roots.antt =====
-- Paths that the policy does not see through: those rooted at two slashes, and directories whose
-- prefix holds a "*" that is not at its end.
use matrix_scanner_saas.Prelude.{◌≡◌, refl, ◌∙◌, ap, false, List, [], ◌∷◌, ◌++◌, arith, All}
use matrix_scanner_saas.Prelude.Results.{ok}
use matrix_scanner_saas.Text.{Text, codes, slash, text_eq, starts_with, ends_with, join}
use matrix_scanner_saas.Paths.{
  render, root_and_rest, pure_posix_parts, add_part, add_parts, canonicalize_path, at_or_below,
  path_matches_prefix, validate_path_policy,
}
use matrix_scanner_saas.Paths.Canonical.{
  IsName, canonicalize_path-render, add_parts-names, split-names,
}
use matrix_scanner_saas.Paths.Prefix.{
  is_prefix, render-flat, at_or_below-flat, names-Lacks, IsDirectory,
}
use matrix_scanner_saas.Paths.Policy.{validate_path_policy-verdicts}

root_of_double :
    (n : Text) (ns : List Text)
    → All IsName (n ∷ ns)
    → root_and_rest (slash ∷ render (n ∷ ns)) ≡ (slash ∷ slash ∷ [], join slash (n ∷ ns))
unfolding root_and_rest render join text_eq
root_of_double [] ns h = cc
root_of_double (c ∷ n) [] h = ground arith
root_of_double (c ∷ n) (m ∷ ns) h = ground arith

double_kept :
    (ns : List Text)
    → add_parts [] ((slash ∷ slash ∷ []) ∷ ns) ≡ add_parts ((slash ∷ slash ∷ []) ∷ []) ns
unfolding add_parts add_part
double_kept ns = refl

parts_of_double :
    (n : Text) (ns : List Text)
    → All IsName (n ∷ ns)
    → pure_posix_parts (slash ∷ render (n ∷ ns)) ≡ (slash ∷ slash ∷ []) ∷ n ∷ ns
unfolding pure_posix_parts
parts_of_double n ns h =
    rw (root_of_double n ns h)
      (ap (λ (t : List Text). (slash ∷ slash ∷ []) ∷ t) (split-names (n ∷ ns) h))

rendered_double :
    (n : Text) (ns : List Text)
    → render ((slash ∷ slash ∷ []) ∷ n ∷ ns) ≡ codes "///" ++ render (n ∷ ns)
unfolding render join
rendered_double n ns = refl

-- A path written with two leading slashes keeps them as a first component: its canonical form
-- begins with four.
canonicalize_path-double :
    (n : Text) (ns : List Text)
    → All IsName (n ∷ ns)
    → canonicalize_path (slash ∷ render (n ∷ ns)) ≡ ok (codes "///" ++ render (n ∷ ns))
unfolding canonicalize_path
canonicalize_path-double n ns h = ap ok (
    ap render (
      ap (add_parts []) (parts_of_double n ns h)
      ∙ double_kept (n ∷ ns)
      ∙ add_parts-names ((slash ∷ slash ∷ []) ∷ []) (n ∷ ns) h)
    ∙ rendered_double n ns)

empty_ne_name : (b : Text) → text_eq b [] ≡ false → text_eq [] b ≡ false
unfolding text_eq
empty_ne_name [] h = cc
empty_ne_name (c ∷ b) h = refl

above_each :
    (n b : Text) (ns ms : List Text)
    → All IsName (n ∷ ns)
    → All IsName (b ∷ ms)
    → at_or_below (codes "///" ++ render (n ∷ ns)) (render (b ∷ ms)) ≡ false
unfolding is_prefix
above_each n b ns ms h hb =
    rw (render-flat n ns, render-flat b ms)
      (at_or_below-flat ([] ∷ [] ∷ [] ∷ n ∷ ns) (b ∷ ms) (tt, (tt, (tt, names-Lacks (n ∷ ns) h)))
          (names-Lacks (b ∷ ms) hb)
        ∙ rw (empty_ne_name b hb.0.0))

-- A path that is written with two leading slashes and ordinary components has a canonical form that
-- no canonical directory other than the root matches as a prefix that does not end in "/*", so no such
-- blocked prefix stops it, even where the components lie below those of the prefix.
pub double_root_escapes :
    (n : Text) (ns : List Text) (dir : List Text)
    → All IsName (n ∷ ns)
    → IsDirectory dir
    → (path : Text) × (canonicalize_path (slash ∷ render (n ∷ ns)) ≡ ok path)
      × (path_matches_prefix path (render dir) ≡ ok false)
unfolding path_matches_prefix
double_root_escapes n ns [] h hd = absurd hd
double_root_escapes n ns (b ∷ ms) h hd = (
  codes "///" ++ render (n ∷ ns),
  canonicalize_path-double n ns h,
  rw (hd.1, canonicalize_path-render (b ∷ ms) hd.0) (ap ok (above_each n b ns ms h hd.0)),
)

not_at_root :
    (n : Text) (ns : List Text)
    → All IsName (n ∷ ns)
    → at_or_below (render (n ∷ ns)) (codes "/") ≡ false
unfolding at_or_below render join text_eq starts_with
not_at_root [] ns h = cc
not_at_root (c ∷ n) [] h = ground arith
not_at_root (c ∷ n) (m ∷ ns) h = ground arith

-- The prefix "/" matches no canonical path other than the root itself.
pub root_prefix_matches_nothing :
    (n : Text) (ns : List Text)
    → All IsName (n ∷ ns)
    → path_matches_prefix (render (n ∷ ns)) (codes "/") ≡ ok false
unfolding path_matches_prefix ends_with canonicalize_path
root_prefix_matches_nothing n ns h = ap ok (not_at_root n ns h)

abbrev ssh_blocked : List (List Text)
ssh_blocked =
    (codes "etc" ∷ codes "shadow" ∷ [])
    ∷ (codes "root" ∷ [])
    ∷ (codes "home" ∷ codes "*" ∷ codes ".ssh" ∷ [])
    ∷ []

ssh_blocked-IsDirectory : All IsDirectory ssh_blocked
unfolding text_eq ends_with render join
ssh_blocked-IsDirectory = ground arith

-- Under the blocked prefixes of the built-in tools, which hold "/home/*/.ssh", every path in the
-- directory ".ssh" of a user not called "*" is accepted.
pub ssh_directory_accepted :
    (user : Text) (rest : List Text)
    → All IsName (user ∷ rest)
    → text_eq user (codes "*") ≡ false
    → validate_path_policy
        (record {
          requires_path_policy = false;
          allowed_path_prefixes = [];
          blocked_path_prefixes = codes "/etc/shadow" ∷ codes "/root" ∷ codes "/home/*/.ssh" ∷ [];
        })
        (render (codes "home" ∷ user ∷ codes ".ssh" ∷ rest) ∷ [])
      ≡ ok tt
unfolding render join is_prefix text_eq
ssh_directory_accepted user rest h star =
    validate_path_policy-verdicts false [] ssh_blocked
      ((codes "home" ∷ user ∷ codes ".ssh" ∷ rest) ∷ []) tt ssh_blocked-IsDirectory (named, tt)
    ∙ ground arith
  where
    named : All IsName (codes "home" ∷ user ∷ codes ".ssh" ∷ rest)
    named = ground arith
