-- ===== src/Config.antt =====
-- src/config.rs: the configuration records and their defaults.
pub mod Validation
pub mod Warnings
use http_cache.Prelude.{ℕ, List, [], ◌∷◌, Bool, true, false, Str, codes}

pub data EnvMode : Type 0 where
  dev prod : EnvMode

pub data LoggingFormat : Type 0 where
  pretty json : LoggingFormat

pub record EnvConfig : Type 0 where
  pub mode : EnvMode

pub record LoggingConfig : Type 0 where
  pub level : Str
  pub format : LoggingFormat
  pub request_id : Bool
  pub redact_headers : List Str

pub record TimeConfig : Type 0 where
  pub timezone : Str

pub record CacheConfig : Type 0 where
  pub enabled : Bool
  pub ttl_seconds : ℕ  -- u64
  pub max_entries : ℕ  -- usize
  pub cache_channel_capacity_chunks : ℕ  -- usize
  pub cache_max_object_size_bytes : ℕ  -- u64
  pub cache_require_content_length : Bool
  pub cache_writer_delay_ms : ℕ  -- u64

pub record LimitsConfig : Type 0 where
  pub max_header_bytes : ℕ  -- usize
  pub max_request_body_bytes : ℕ  -- u64
  pub max_connections : ℕ  -- usize
  pub per_ip_rps : ℕ  -- u32
  pub connect_timeout_ms : ℕ  -- u64
  pub idle_timeout_ms : ℕ  -- u64

pub record PolicyConfig : Type 0 where
  pub allowed_domains : List Str
  pub denied_domains : List Str
  pub allowed_ports : List ℕ  -- u16
  pub denied_ports : List ℕ  -- u16

pub record ListenConfig : Type 0 where
  pub host : Str
  pub port : ℕ  -- u16

pub record Config : Type 0 where
  pub env : EnvConfig
  pub logging : LoggingConfig
  pub time : TimeConfig
  pub caching : CacheConfig
  pub limits : LimitsConfig
  pub policy : PolicyConfig
  pub listen : ListenConfig

abbrev pub default_env : EnvConfig
default_env = record { mode = dev }

abbrev pub default_logging : LoggingConfig
default_logging = record {
  level = codes "info";
  format = pretty;
  request_id = true;
  redact_headers =
      codes "authorization"
      ∷ codes "proxy-authorization"
      ∷ codes "cookie"
      ∷ codes "set-cookie"
      ∷ [];
}

abbrev pub default_time : TimeConfig
default_time = record { timezone = codes "UTC" }

abbrev pub default_caching : CacheConfig
default_caching = record {
  enabled = false;
  ttl_seconds = 300;
  max_entries = 1024;
  cache_channel_capacity_chunks = 64;
  cache_max_object_size_bytes = 1_073_741_824;
  cache_require_content_length = true;
  cache_writer_delay_ms = 0;
}

abbrev pub default_limits : LimitsConfig
default_limits = record {
  max_header_bytes = 32_768;
  max_request_body_bytes = 10_485_760;
  max_connections = 1024;
  per_ip_rps = 50;
  connect_timeout_ms = 5_000;
  idle_timeout_ms = 60_000;
}

abbrev pub default_policy : PolicyConfig
default_policy = record {
  allowed_domains = codes "*" ∷ [];
  denied_domains = [];
  allowed_ports = 80 ∷ 443 ∷ [];
  denied_ports = [];
}

abbrev pub default_listen : ListenConfig
default_listen = record { host = codes "0.0.0.0"; port = 3128 }

abbrev pub default_config : Config
default_config = record {
  env = default_env;
  logging = default_logging;
  time = default_time;
  caching = default_caching;
  limits = default_limits;
  policy = default_policy;
  listen = default_listen;
}
