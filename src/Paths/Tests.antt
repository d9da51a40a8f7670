-- ===== src/Paths/Tests.antt =====
-- Runs of the path functions, and the theorems about them at concrete paths.
use matrix_scanner_saas.Prelude.{◌≡◌, refl, true, false, [], ◌∷◌, All, map, arith}
use matrix_scanner_saas.Prelude.Results.{ok, err}
use matrix_scanner_saas.Text.{Text, codes, slash, ends_with, text_eq, join}
use matrix_scanner_saas.Paths.{
  canonicalize_path, path_matches_prefix, not_absolute, drop_last_two, at_or_below, render,
  validate_path_policy,
}
use matrix_scanner_saas.Paths.Canonical.{IsName}
use matrix_scanner_saas.Paths.Prefix.{IsDirectory}
use matrix_scanner_saas.Paths.Policy.{verdicts, validate_path_policy-verdicts}
use matrix_scanner_saas.Paths.Roots.{double_root_escapes, ssh_directory_accepted}

dots_resolved : canonicalize_path (codes "/var//www/./a/../b/") ≡ ok (codes "/var/www/b")
unfolding canonicalize_path
dots_resolved = refl

above_root : canonicalize_path (codes "/../../etc") ≡ ok (codes "/etc")
unfolding canonicalize_path
above_root = refl

relative : canonicalize_path (codes "etc/passwd") ≡ err not_absolute
unfolding canonicalize_path
relative = refl

double_root : canonicalize_path (codes "//etc/shadow") ≡ ok (codes "////etc/shadow")
unfolding canonicalize_path
double_root = refl

inner_star : path_matches_prefix (codes "/home/bob/.ssh/id") (codes "/home/*/.ssh") ≡ ok false
unfolding path_matches_prefix ends_with drop_last_two canonicalize_path at_or_below
inner_star = refl

last_star : path_matches_prefix (codes "/var/log/x") (codes "/var/*") ≡ ok true
unfolding path_matches_prefix ends_with drop_last_two canonicalize_path at_or_below
last_star = refl

log_file : All IsName (codes "var" ∷ codes "log" ∷ [])
unfolding text_eq
log_file = ground arith

shadow : All IsName (codes "etc" ∷ codes "shadow" ∷ [])
unfolding text_eq
shadow = ground arith

etc : All IsName (codes "etc" ∷ [])
unfolding text_eq
etc = ground arith

etc-IsDirectory : IsDirectory (codes "etc" ∷ [])
unfolding text_eq ends_with render join
etc-IsDirectory = ground arith

validate_path_policy-verdicts_example :
    validate_path_policy
      (record {
        requires_path_policy = false;
        allowed_path_prefixes = map render [];
        blocked_path_prefixes = map render ((codes "etc" ∷ []) ∷ []);
      })
      (map render ((codes "var" ∷ codes "log" ∷ []) ∷ (codes "etc" ∷ codes "shadow" ∷ []) ∷ []))
    ≡ verdicts false []
        ((codes "etc" ∷ []) ∷ [])
        ((codes "var" ∷ codes "log" ∷ []) ∷ (codes "etc" ∷ codes "shadow" ∷ []) ∷ [])
validate_path_policy-verdicts_example =
    validate_path_policy-verdicts false [] ((codes "etc" ∷ []) ∷ [])
      ((codes "var" ∷ codes "log" ∷ []) ∷ (codes "etc" ∷ codes "shadow" ∷ []) ∷ []) tt
      (etc-IsDirectory, tt) (log_file, (shadow, tt))

double_root_escapes_example :
    (path : Text) × (canonicalize_path (slash ∷ render (codes "etc" ∷ codes "shadow" ∷ []))
      ≡ ok path)
    × (path_matches_prefix path (render (codes "etc" ∷ [])) ≡ ok false)
double_root_escapes_example =
    double_root_escapes (codes "etc") (codes "shadow" ∷ []) (codes "etc" ∷ []) shadow
      etc-IsDirectory

key_file : All IsName (codes "bob" ∷ codes "id_rsa" ∷ [])
unfolding text_eq
key_file = ground arith

ssh_directory_accepted_example :
    validate_path_policy
      (record {
        requires_path_policy = false;
        allowed_path_prefixes = [];
        blocked_path_prefixes = codes "/etc/shadow" ∷ codes "/root" ∷ codes "/home/*/.ssh" ∷ [];
      })
      (render (codes "home" ∷ codes "bob" ∷ codes ".ssh" ∷ codes "id_rsa" ∷ []) ∷ [])
    ≡ ok tt
unfolding text_eq
ssh_directory_accepted_example =
    ssh_directory_accepted (codes "bob") (codes "id_rsa" ∷ []) key_file refl
