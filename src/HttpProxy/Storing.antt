-- ===== src/HttpProxy/Storing.antt =====
-- src/http_proxy/mod.rs: `handle_http` once the upstream has answered, that is, what is stored of a
-- response; and the write permits of src/http_proxy/cache_pipeline.rs.
pub mod Storable
pub mod Permits
use http_cache.HttpProxy.CacheWrite.{Settings}
use http_cache.Prelude.Int.{ℤ, leb_ℤ}
use http_cache.Config.{CacheConfig}
use http_cache.Cache.{CacheStoreRequest, cache_key}
use http_cache.Prelude.{
  none, some, ◌∷◌, false, Str, ℕ, Option, List, Bool, if◌then◌else◌, keep, leb, ltb, any, not, ◌&&◌,
  str_eq, codes, is_some, ◌||◌, ◌==◌,
}

-- Nothing is stored; the entry of a HEAD response is; or the body goes through the tee, for the
-- writer that holds the permit of the key.
pub data Storing : Type 0 where
  pass_on : Storing
  store_head : CacheStoreRequest → Storing
  store_body : Str → List (Str × Str) → ℤ → Settings → Storing

-- `CACHE_WRITE_LOCKS`, the keys of the permits that are held.
unfoldable pub try_acquire_cache_write : Str → List Str → Option (List Str)
try_acquire_cache_write key held = if any (λ k. str_eq k key) held then none else some (key ∷ held)

-- `Drop for CacheWritePermit`
unfoldable pub drop_permit : Str → List Str → List Str
drop_permit key held = keep (λ k. not (str_eq k key)) held

-- `status.is_success()`
abbrev pub is_success : ℕ → Bool
is_success status = leb 200 status && ltb status 300

abbrev pub too_large : Option ℕ → ℕ → Bool
too_large none max = false
too_large (some value) max = ltb 0 max && ltb max value

-- One response to one request, as `handle_http` sees them: the method and the URL asked for,
-- whether a range was, and the status. `now` and `created_at` are two readings of the clock.
pub record Exchange : Type 0 where
  pub method : Str
  pub url : Str
  pub range_requested : Bool
  pub status : ℕ
  pub now : ℤ
  pub created_at : ℤ

module _ (config : CacheConfig) (held : List Str) (exchange : Exchange)
    (stored_headers : List (Str × Str)) (content_length : Option ℕ) where
  abbrev pub key_of : Str
  key_of = cache_key exchange.method exchange.url

  abbrev pub head_request : ℤ → CacheStoreRequest
  head_request expires_at = record {
    key = key_of;
    method = exchange.method;
    url = exchange.url;
    status = exchange.status;
    headers = stored_headers;
    body_path = none;
    body_size = 0;
    created_at = exchange.created_at;
    expires_at = expires_at;
  }

  abbrev pub settings_of : Settings
  settings_of = record {
    content_length = content_length;
    max_object_size_bytes = config.cache_max_object_size_bytes;
    require_content_length = config.cache_require_content_length;
  }

  unfoldable pub store_response : ℤ → Storing
  unfolding try_acquire_cache_write
  store_response expires_at =
      if str_eq exchange.method (codes "HEAD")
      then store_head (head_request expires_at)
      else if too_large content_length config.cache_max_object_size_bytes
      then pass_on
      else if config.cache_require_content_length && not (is_some content_length)
      then pass_on
      else if config.cache_channel_capacity_chunks == 0
      then pass_on
      else if is_some (try_acquire_cache_write key_of held)
      then store_body key_of stored_headers expires_at settings_of
      else pass_on

  abbrev pub store_until : Option ℤ → Storing
  store_until none = pass_on
  store_until (some expires_at) =
      if not (leb_ℤ expires_at exchange.now) && is_success exchange.status
      then store_response expires_at
      else pass_on

  unfoldable pub storing : Bool → Option ℤ → Storing
  unfolding store_response
  storing enabled expiry =
      if enabled && (str_eq exchange.method (codes "GET") || str_eq exchange.method (codes "HEAD"))
      then (if exchange.range_requested
          then pass_on
          else if exchange.status == 206
          then pass_on
          else store_until expiry)
      else pass_on
