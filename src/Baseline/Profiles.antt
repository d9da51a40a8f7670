-- ===== src/Baseline/Profiles.antt =====
-- The profiles of a baseline scan: apps/servers/baseline_profiles.py.
use matrix_scanner_saas.Prelude.{String, List, [], ◌∷◌, if◌then◌else◌}
use text.Mathlib.Text.{◌==◌ as str_eq}

abbrev pub profile_legacy_cpanel : String
profile_legacy_cpanel = "legacy_cpanel"

abbrev pub profile_debian_nginx_opt : String
profile_debian_nginx_opt = "debian_nginx_opt"

abbrev pub profile_minimal_linux : String
profile_minimal_linux = "minimal_linux"

abbrev pub legacy_cpanel_tool_keys : List String
legacy_cpanel_tool_keys =
    "system_identity" ∷ "services_status" ∷ "panel_detector" ∷ "cpanel_domain_scanner"
    ∷ "application_discovery" ∷ "laravel_discovery" ∷ "log_sources_discovery"
    ∷ "webroot_risk_checker" ∷ []

abbrev pub debian_nginx_opt_tool_keys : List String
debian_nginx_opt_tool_keys =
    "system_identity" ∷ "systemd_services_discovery" ∷ "nginx_sites_discovery"
    ∷ "opt_apps_discovery" ∷ "django_apps_discovery" ∷ "gunicorn_uvicorn_services_discovery"
    ∷ "postgres_status_discovery" ∷ "log_sources_discovery_v2" ∷ []

abbrev pub minimal_linux_tool_keys : List String
minimal_linux_tool_keys =
    "system_identity" ∷ "systemd_services_discovery" ∷ "log_sources_discovery_v2" ∷ []

-- BASELINE_PROFILE_TOOL_KEYS at a normalised key: a key that is not there is the default profile's.
unfoldable pub tool_keys_for_profile : String → List String
tool_keys_for_profile profile_key =
    if str_eq profile_key profile_debian_nginx_opt
    then debian_nginx_opt_tool_keys
    else if str_eq profile_key profile_minimal_linux
    then minimal_linux_tool_keys
    else legacy_cpanel_tool_keys
