-- ===== src/Paths.antt =====
-- Path parameters of tools and the path policy: apps/tools/validation.py, `canonicalize_path`,
-- `path_matches_prefix` and `validate_path_policy`.
pub mod Canonical
pub mod Prefix
pub mod Policy
pub mod Roots
mod Tests
use matrix_scanner_saas.Prelude.{
  ℕ, zero, suc, Bool, true, false, not, ◌&&◌, ◌||◌, List, [], ◌∷◌, ◌++◌, ◌==◌, if◌then◌else◌, keep,
}
use matrix_scanner_saas.Prelude.Results.{Result, ok, err, ◌>>=◌}
use matrix_scanner_saas.Text.{
  Text, codes, slash, text_eq, starts_with, ends_with, one_of, split, join,
}

-- What the messages of `ToolParamValidationError` in these functions say.
pub data PathError : Type 0 where
  not_absolute : PathError
  blocked : PathError
  not_allowed : PathError

abbrev pub dot : Text
dot = codes "."

abbrev pub dot_dot : Text
dot_dot = codes ".."

-- PurePosixPath(value).parts of an absolute path: the root, and then the components that are
-- neither empty nor a single dot. POSIX keeps a root of exactly two slashes apart.
unfoldable pub root_and_rest : Text → Text × Text
root_and_rest [] = ([], [])
root_and_rest (a ∷ []) = (a ∷ [], [])
root_and_rest (a ∷ b ∷ []) = if b == slash then (a ∷ b ∷ [], []) else (a ∷ [], b ∷ [])
root_and_rest (a ∷ b ∷ c ∷ s) =
    if b == slash && not (c == slash) then (a ∷ b ∷ [], c ∷ s) else (a ∷ [], b ∷ c ∷ s)

unfoldable pub is_component : Text → Bool
unfolding text_eq
is_component part = not (text_eq part []) && not (text_eq part dot)

unfoldable pub pure_posix_parts : Text → List Text
unfolding root_and_rest is_component split
pure_posix_parts value =
    let (root, rest) = root_and_rest value in root ∷ keep is_component (split slash rest)

-- parts.pop(), which the code calls only if `parts` is not empty
unfoldable pub pop : List Text → List Text
pop [] = []
pop (p ∷ []) = []
pop (p ∷ q ∷ ps) = p ∷ pop (q ∷ ps)

-- The body of the loop of `canonicalize_path`.
unfoldable pub add_part : List Text → Text → List Text
unfolding one_of text_eq pop
add_part parts part =
    if one_of part ([] ∷ (slash ∷ []) ∷ [])
    then parts
    else if text_eq part dot
    then parts
    else if text_eq part dot_dot
    then pop parts
    else parts ++ (part ∷ [])

unfoldable pub add_parts : List Text → List Text → List Text
unfolding add_part
add_parts parts [] = parts
add_parts parts (part ∷ rest) = add_parts (add_part parts part) rest

-- "/" + "/".join(parts)
unfoldable pub render : List Text → Text
unfolding join
render parts = slash ∷ join slash parts

unfoldable pub canonicalize_path : Text → Result PathError Text
unfolding starts_with add_parts pure_posix_parts render
canonicalize_path value =
    if starts_with value (slash ∷ [])
    then ok (render (add_parts [] (pure_posix_parts value)))
    else err not_absolute

-- prefix[:-2]
unfoldable pub drop_last_two : Text → Text
drop_last_two [] = []
drop_last_two (a ∷ []) = []
drop_last_two (a ∷ b ∷ []) = []
drop_last_two (a ∷ b ∷ c ∷ s) = a ∷ drop_last_two (b ∷ c ∷ s)

-- path == base or path.startswith(f"{base}/")
unfoldable pub at_or_below : Text → Text → Bool
unfolding text_eq starts_with
at_or_below path base = text_eq path base || starts_with path (base ++ (slash ∷ []))

unfoldable pub path_matches_prefix : Text → Text → Result PathError Bool
path_matches_prefix path prefix =
    if ends_with prefix (codes "/*")
    then (do base ← canonicalize_path (drop_last_two prefix); ok (at_or_below path base))
    else (do canonical_prefix ← canonicalize_path prefix; ok (at_or_below path canonical_prefix))

-- What `validate_path_policy` reads of a tool definition.
pub record PathPolicy : Type 0 where
  pub requires_path_policy : Bool
  pub allowed_path_prefixes : List Text
  pub blocked_path_prefixes : List Text

-- for prefix in blocked: if path_matches_prefix(path, prefix): raise ...
unfoldable pub check_blocked : Text → List Text → Result PathError (Unit {0})
check_blocked path [] = ok tt
check_blocked path (prefix ∷ blocked_prefixes) =
    let rest = check_blocked path blocked_prefixes in
    path_matches_prefix path prefix >>= λ hit. if hit then err blocked else rest

-- any(path_matches_prefix(path, prefix) for prefix in allowed)
unfoldable pub any_prefix : Text → List Text → Result PathError Bool
any_prefix path [] = ok false
any_prefix path (prefix ∷ allowed) =
    let rest = any_prefix path allowed in
    path_matches_prefix path prefix >>= λ hit. if hit then ok true else rest

unfoldable pub check_allowed : PathPolicy → Text → Result PathError (Unit {0})
check_allowed policy path =
    if policy.requires_path_policy
    then (do
      allowed ← any_prefix path policy.allowed_path_prefixes
      if allowed then ok tt else err not_allowed)
    else ok tt

unfoldable pub validate_path_policy : PathPolicy → List Text → Result PathError (Unit {0})
validate_path_policy policy [] = ok tt
validate_path_policy policy (path ∷ paths) =
    let rest = validate_path_policy policy paths in
    check_blocked path policy.blocked_path_prefixes >>= λ _. check_allowed policy path >>= λ _. rest
