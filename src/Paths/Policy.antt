-- ===== src/Paths/Policy.antt =====
-- `validate_path_policy` on canonical paths and prefixes decides a policy on lists of components.
use matrix_scanner_saas.Prelude.{
  ◌≡◌, refl, Bool, not, ◌&&◌, List, [], ◌∷◌, arith, map, if◌then◌else◌, All, any,
}
use matrix_scanner_saas.Prelude.Results.{Result, ok, err, ◌>>=◌}
use matrix_scanner_saas.Text.{Text}
use matrix_scanner_saas.Paths.{
  PathError, blocked, not_allowed, render, check_blocked, any_prefix, check_allowed,
  validate_path_policy,
}
use matrix_scanner_saas.Paths.Canonical.{IsName}
use matrix_scanner_saas.Paths.Prefix.{is_prefix, IsDirectory, path_matches_prefix-directory}

-- The path lies in or below one of the directories.
abbrev pub in_any : List Text → List (List Text) → Bool
in_any path dirs = any (λ dir. is_prefix dir path) dirs

-- The policy by components: blocked directories first, then the allowed ones if they are required.
abbrev pub verdict :
    Bool → List (List Text) → List (List Text) → List Text → Result PathError (Unit {0})
verdict required allowed denied path =
    if in_any path denied
    then err blocked
    else if required && not (in_any path allowed)
    then err not_allowed
    else ok tt

-- The first path whose verdict is an error decides.
abbrev pub verdicts :
    Bool → List (List Text) → List (List Text) → List (List Text) → Result PathError (Unit {0})
verdicts required allowed denied [] = ok tt
verdicts required allowed denied (path ∷ paths) =
    verdict required allowed denied path >>= λ _. verdicts required allowed denied paths

module _ (path : List Text) (named : All IsName path) where
  check_blocked-in_any :
      (denied : List (List Text))
      → All IsDirectory denied
      → check_blocked (render path) (map render denied)
        ≡ (if in_any path denied then err blocked else ok tt)
  unfolding check_blocked
  check_blocked-in_any [] h = refl
  check_blocked-in_any (dir ∷ denied) h =
      rw (path_matches_prefix-directory path dir named h.0)
        (ground (arith, check_blocked-in_any denied h.1))

  any_prefix-in_any :
      (allowed : List (List Text))
      → All IsDirectory allowed
      → any_prefix (render path) (map render allowed) ≡ ok (in_any path allowed)
  unfolding any_prefix
  any_prefix-in_any [] h = refl
  any_prefix-in_any (dir ∷ allowed) h =
      rw (path_matches_prefix-directory path dir named h.0)
        (ground (arith, any_prefix-in_any allowed h.1))

  check_allowed-in_any :
      (required : Bool) (allowed : List (List Text)) (denied : List Text)
      → All IsDirectory allowed
      → check_allowed
          (record {
            requires_path_policy = required;
            allowed_path_prefixes = map render allowed;
            blocked_path_prefixes = denied;
          })
          (render path)
        ≡ (if required && not (in_any path allowed) then err not_allowed else ok tt)
  unfolding check_allowed
  check_allowed-in_any required allowed denied h = rw (any_prefix-in_any allowed h) (ground arith)

-- For canonical paths, and canonical allowed and blocked directories other than the root, none of them
-- ending in "/*", `validate_path_policy` returns what the policy by components says: the error of the
-- first path that lies in a blocked directory, or outside every allowed one where that is required.
pub validate_path_policy-verdicts :
    (required : Bool) (allowed denied : List (List Text)) (paths : List (List Text))
    → All IsDirectory allowed
    → All IsDirectory denied
    → All (All IsName) paths
    → validate_path_policy
        (record {
          requires_path_policy = required;
          allowed_path_prefixes = map render allowed;
          blocked_path_prefixes = map render denied;
        })
        (map render paths)
      ≡ verdicts required allowed denied paths
unfolding validate_path_policy
validate_path_policy-verdicts required allowed denied [] ha hd hp = refl
validate_path_policy-verdicts required allowed denied (path ∷ paths) ha hd hp =
    rw
      (
        check_blocked-in_any path hp.0 denied hd,
        check_allowed-in_any path hp.0 required allowed (map render denied) ha,
      )
      (ground (arith, validate_path_policy-verdicts required allowed denied paths ha hd hp.1))
