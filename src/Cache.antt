-- ===== src/Cache.antt =====
-- src/cache.rs: entries, keys and time stamps of the response cache. The children model the SQLite
-- table, the cache over it, and the parser of `Cache-Control`.
pub mod World
pub mod Table
pub mod Sqlite
pub mod Backend
pub mod Control
pub mod Ideal
pub mod Interleaved
use http_cache.Prelude.{ℕ, List, Option, none, some, ◌++◌, Str, codes}
use http_cache.Prelude.Int.{ℤ}
use http_cache.Prelude.Words.{as_i64}

pub record CacheEntry : Type 0 where
  pub key : Str
  pub method : Str
  pub url : Str
  pub status : ℕ  -- u16
  pub headers : List (Str × Str)
  pub body_path : Option Str
  pub body_size : ℕ  -- u64
  pub created_at : ℤ  -- i64
  pub expires_at : ℤ  -- i64
  pub last_access : ℤ  -- i64

pub record CacheStoreRequest : Type 0 where
  pub key : Str
  pub method : Str
  pub url : Str
  pub status : ℕ  -- u16
  pub headers : List (Str × Str)
  pub body_path : Option Str
  pub body_size : ℕ  -- u64
  pub created_at : ℤ  -- i64
  pub expires_at : ℤ  -- i64

-- `format!("{method} {url}")`
unfoldable pub cache_key : Str → Str → Str
cache_key method url = method ++ (codes " " ++ url)

-- The clock as the seconds since the epoch, `none` when it shows an earlier time.
abbrev pub Clock : Type 0
Clock = Option ℕ

-- `duration_since(UNIX_EPOCH).unwrap_or_default().as_secs() as i64`
unfoldable pub now_unix : Clock → ℤ
now_unix none = as_i64 0
now_unix (some seconds) = as_i64 seconds
