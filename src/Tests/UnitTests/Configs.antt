-- ===== src/Tests/UnitTests/Configs.antt =====
-- The unit tests of src/config.rs, but the one that reads TOML.
use http_cache.Tests.UnitTests.{fails_with, includes}
use http_cache.Config.{
  Config, default_config, default_limits, default_logging, default_caching, default_policy, dev,
}
use http_cache.Config.Validation.{validate}
use http_cache.Config.Warnings.{startup_warnings}
use http_cache.Prelude.{◌≡◌, refl, [], ◌∷◌, ◌++◌, true, codes, any, trim}

abbrev no_connections : Config
no_connections = record default_config { limits = record default_limits { max_connections = 0 } }

abbrev ValidationRejectsZeroConnectionLimit : Type 0
ValidationRejectsZeroConnectionLimit =
    fails_with (codes "limits.max_connections must be greater than 0") (validate no_connections)
    ≡ true

validation_rejects_zero_connection_limit : ValidationRejectsZeroConnectionLimit
unfolding validate trim fails_with
validation_rejects_zero_connection_limit = refl

abbrev no_body : Config
no_body = record default_config { limits = record default_limits { max_request_body_bytes = 0 } }

abbrev ValidationRejectsZeroRequestBodyLimit : Type 0
ValidationRejectsZeroRequestBodyLimit =
    fails_with (codes "limits.max_request_body_bytes must be greater than 0") (validate no_body)
    ≡ true

validation_rejects_zero_request_body_limit : ValidationRejectsZeroRequestBodyLimit
unfolding validate trim fails_with
validation_rejects_zero_request_body_limit = refl

-- With a blank name pushed behind the names to redact.
abbrev blank_name : Config
blank_name = record default_config {
  logging = record default_logging {
    redact_headers = default_logging.redact_headers ++ (codes "   " ∷ []);
  };
}

abbrev ValidationRejectsEmptyRedactedHeaderNames : Type 0
ValidationRejectsEmptyRedactedHeaderNames =
    fails_with (codes "logging.redact_headers cannot contain empty header names")
      (validate blank_name)
    ≡ true

validation_rejects_empty_redacted_header_names : ValidationRejectsEmptyRedactedHeaderNames
unfolding validate trim fails_with
validation_rejects_empty_redacted_header_names = refl

abbrev overlapping : Config
overlapping = record default_config {
  env = record { mode = dev };
  caching = record default_caching { enabled = true };
  policy = record default_policy { allowed_ports = 80 ∷ 443 ∷ []; denied_ports = 443 ∷ [] };
}

abbrev StartupWarningsReportDevCacheResetAndPortOverlap : Type 0
StartupWarningsReportDevCacheResetAndPortOverlap =
    (any (includes (codes "dev mode clears .cache on startup")) (startup_warnings overlapping)
      ≡ true)
    × (any (includes (codes "denied ports win")) (startup_warnings overlapping) ≡ true)

startup_warnings_report_dev_cache_reset_and_port_overlap :
    StartupWarningsReportDevCacheResetAndPortOverlap
unfolding startup_warnings includes
startup_warnings_report_dev_cache_reset_and_port_overlap = (refl, refl)
