-- ===== src/Jobs/Size.antt =====
-- `serialized_size` of apps/servers/services.py: `json.dumps` with the separators "," and ":".
use matrix_scanner_saas.Prelude.{ℕ}
use matrix_scanner_saas.Json.{Value}
use matrix_scanner_saas.Json.Size.{dumps_size}

unfoldable pub serialized_size : Value → ℕ
serialized_size v = dumps_size 0 v
