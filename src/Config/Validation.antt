-- ===== src/Config/Validation.antt =====
-- src/config.rs: `Config::validate` and `Config::load`, over a file system and a reader of TOML.
use http_cache.Errors.{Result, ok, err, config_validation, config_parse, config_read}
use http_cache.Config.{Config}
use http_cache.Prelude.{
  Str, List, ◌⊎◌, trim, any, ◌≡◌, if◌then◌else◌, ◌≢◌, is_empty, inl, [], ◌<◌, inr, codes, true,
  ◌==◌, ◌&&◌,
}
use mathlib.Core.List.{Memᴰ}

-- What `load` calls: either may fail, with a message.
pub record Sources : Type 0 where
  pub read_to_string : Str → Str ⊎ Str
  pub from_str : Str → Str ⊎ Config

unfoldable pub validate : Config → Result (Unit {0})
validate config =
    if any (λ name. is_empty (trim name)) config.logging.redact_headers
    then err (config_validation (codes "logging.redact_headers cannot contain empty header names"))
    else if config.limits.max_header_bytes == 0
    then err (config_validation (codes "limits.max_header_bytes must be greater than 0"))
    else if config.limits.max_connections == 0
    then err (config_validation (codes "limits.max_connections must be greater than 0"))
    else if config.limits.max_request_body_bytes == 0
    then err (config_validation (codes "limits.max_request_body_bytes must be greater than 0"))
    else if config.limits.connect_timeout_ms == 0
    then err (config_validation (codes "limits.connect_timeout_ms must be greater than 0"))
    else if config.limits.idle_timeout_ms == 0
    then err (config_validation (codes "limits.idle_timeout_ms must be greater than 0"))
    else if config.caching.enabled && config.caching.ttl_seconds == 0
    then err (
        config_validation
          (codes "caching.ttl_seconds must be greater than 0 when caching is enabled"))
    else ok tt

-- `config.validate()?; Ok(config)`
unfoldable pub validated : Config → Result (Unit {0}) → Result Config
validated config (ok u) = ok config
validated config (err e) = err e

unfoldable pub parsed : Str → Str ⊎ Config → Result Config
unfolding validated validate
parsed path (inl source) = err (config_parse path source)
parsed path (inr config) = validated config (validate config)

unfoldable pub parse_contents : Sources → Str → Str ⊎ Str → Result Config
unfolding parsed
parse_contents sources path (inl source) = err (config_read path source)
parse_contents sources path (inr contents) = parsed path (sources.from_str contents)

unfoldable pub load : Sources → Str → Result Config
unfolding parse_contents
load sources path = parse_contents sources path (sources.read_to_string path)

-- The configurations that the proxy starts with.
pub record Valid (config : Config) : Type 0 where
  pub redact_headers : (name : Str) → Memᴰ name config.logging.redact_headers → trim name ≢ []
  pub max_header_bytes : 0 < config.limits.max_header_bytes
  pub max_connections : 0 < config.limits.max_connections
  pub max_request_body_bytes : 0 < config.limits.max_request_body_bytes
  pub connect_timeout_ms : 0 < config.limits.connect_timeout_ms
  pub idle_timeout_ms : 0 < config.limits.idle_timeout_ms
  pub ttl_seconds : config.caching.enabled ≡ true → 0 < config.caching.ttl_seconds
