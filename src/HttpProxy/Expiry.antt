-- ===== src/HttpProxy/Expiry.antt =====
-- src/http_proxy/headers.rs: `compute_expiry`, how long a response may be answered from the cache.
use http_cache.Prelude.Decimal.{parse_u64}
use http_cache.Cache.{now_unix, Clock}
use http_cache.Headers.{HeaderLib}
use http_cache.Cache.Control.{parse_cache_control}
use http_cache.Prelude.Words.{as_i64, saturating_add_i64}
use http_cache.Prelude.{Str, Option, ℕ, some, if◌then◌else◌, ◌||◌, none}
use http_cache.Prelude.Int.{ℤ, min_ℤ, pos, negsuc}
pub mod Least
pub mod Bounds
use mathlib.Core.Option

-- `httpdate::parse_http_date`, as seconds from the epoch; dates before it are negative.
abbrev pub DateReader : Type 0
DateReader = Str → Option ℤ

-- `duration_since(UNIX_EPOCH).unwrap_or_default().as_secs() as i64`
abbrev pub since_epoch : ℤ → ℤ
since_epoch (pos n) = as_i64 n
since_epoch (negsuc n) = as_i64 0

-- `value.to_str()` of a header, `none` also if there is none.
abbrev pub text_of {ℓ} : {A : Type ℓ} → (A → Option Str) → Option A → Option Str
text_of to_str none = none
text_of to_str (some value) = to_str value

module _ (now : ℤ) where
  unfoldable pub limit_age : ℤ → Option ℕ → ℤ
  unfolding saturating_add_i64
  limit_age expires_at none = expires_at
  limit_age expires_at (some max_age) = min_ℤ expires_at (saturating_add_i64 now (as_i64 max_age))

  -- What the `Cache-Control` header leaves of the expiry.
  unfoldable pub heed_control : ℤ → Option Str → Option ℤ
  unfolding limit_age parse_cache_control
  heed_control expires_at none = some expires_at
  heed_control expires_at (some control) =
      let parsed = parse_cache_control control in
      if parsed.no_store || parsed.no_cache
      then none
      else some (limit_age expires_at parsed.max_age)

unfoldable pub limit_date : ℤ → Option ℤ → ℤ
limit_date expires_at none = expires_at
limit_date expires_at (some datetime) = min_ℤ expires_at (since_epoch datetime)

unfoldable pub heed_expires : DateReader → ℤ → Option Str → ℤ
unfolding limit_date
heed_expires parse_http_date expires_at none = expires_at
heed_expires parse_http_date expires_at (some value) = limit_date expires_at (parse_http_date value)

module _ (lib : HeaderLib) where
  open lib use {HeaderMap, get, to_str, cache_control, expires, content_length}

  unfoldable pub compute_expiry : DateReader → Clock → HeaderMap → ℕ → Option ℤ
  unfolding heed_control heed_expires now_unix
  compute_expiry parse_http_date clock headers ttl_seconds =
      let now = now_unix clock in
      Option.map
        (λ expires_at.
          heed_expires parse_http_date expires_at (text_of to_str (get headers expires)))
        (heed_control now (saturating_add_i64 now (as_i64 ttl_seconds))
          (text_of to_str (get headers cache_control)))

  unfoldable pub parse_content_length : HeaderMap → Option ℕ
  unfolding parse_u64
  parse_content_length headers = elim (text_of to_str (get headers content_length)) [
    | none ↦ none
    | some value ↦ parse_u64 value
  ]
