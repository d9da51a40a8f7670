-- ===== src/Redaction/Sample.antt =====
-- A concrete engine for the tests: every pattern finds the texts with "sk-live" in them, and
-- lower-casing is that of ASCII.
use matrix_scanner_saas.Prelude.{ℕ, ◌+◌, ◌≡◌, Bool, false, ◌&&◌, leb, if◌then◌else◌, map}
use matrix_scanner_saas.Text.{Text, codes, contains}
use matrix_scanner_saas.Redaction.{Python, SecretPattern, redacted}

abbrev lower_ascii : ℕ → ℕ
lower_ascii c = if leb b'A' c && leb c b'Z' then c + 32 else c

abbrev found : SecretPattern → Text → Bool
found p s = contains s (codes "sk-live")

abbrev replaced : SecretPattern → Text → Text
replaced p s = if found p s then redacted else s

pub replaced_unmatched : (p : SecretPattern) (s : Text) → found p s ≡ false → replaced p s ≡ s
replaced_unmatched p s h = rw h

abbrev pub sample : Python
sample = record {
  lower = map lower_ascii;
  search = found;
  sub = replaced;
  sub_group = replaced;
  sub_unmatched = replaced_unmatched;
  sub_group_unmatched = replaced_unmatched;
}
