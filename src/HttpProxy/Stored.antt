-- ===== src/HttpProxy/Stored.antt =====
-- src/http_proxy/headers.rs: `headers_for_storage`, and the headers that
-- src/http_proxy/cache_pipeline.rs makes of them again.
pub mod Replay
pub mod Repeated
use http_cache.Cache.{CacheEntry}
use http_cache.Errors.{Result, err, ok, internal, io}
use http_cache.Body.{Bytes}
use http_cache.Prelude.Decimal.{to_decimal}
use http_cache.Headers.{HeaderLib, strip_hop_by_hop}
use http_cache.Prelude.{
  none, some, [], ◌∷◌, Option, List, ℕ, Str, if◌then◌else◌, leb, str_eq, ◌&&◌, codes, ltb, inl, inr,
  ◌⊎◌,
}
use mathlib.Core.Option.{get_or}

module _ (lib : HeaderLib) where
  open lib use {
    HeaderName, HeaderValue, HeaderMap, from_bytes, as_str, from_str, to_str, content_length, empty,
    iter, insert,
  }

  -- `iter().filter_map(..).collect()`: a value that is not text is left out.
  abbrev pub push_text : HeaderName → Option Str → List (Str × Str) → List (Str × Str)
  push_text name none rest = rest
  push_text name (some value) rest = (as_str name, value) ∷ rest

  unfoldable pub to_pairs : List (HeaderName × HeaderValue) → List (Str × Str)
  to_pairs [] = []
  to_pairs ((name, value) ∷ entries) = push_text name (to_str value) (to_pairs entries)

  unfoldable pub headers_for_storage : HeaderMap → List (Str × Str)
  unfolding to_pairs strip_hop_by_hop
  headers_for_storage headers = to_pairs (iter (strip_hop_by_hop lib headers))

  -- The loop of `cached_response`: a later value replaces an earlier one of the same name.
  abbrev pub insert_some : Option HeaderName → Option HeaderValue → HeaderMap → HeaderMap
  insert_some (some name) (some value) m = insert name value m
  insert_some _ _ m = m

  unfoldable pub insert_pairs : List (Str × Str) → HeaderMap → HeaderMap
  insert_pairs [] m = m
  insert_pairs ((name, value) ∷ pairs) m =
      insert_pairs pairs (insert_some (from_bytes name) (from_str value) m)

  -- `StatusCode::from_u16(status).unwrap_or(StatusCode::OK)`
  abbrev pub status_of : ℕ → ℕ
  status_of status = get_or (lib.from_u16 status) 200

  -- A response by its status, its headers and its body.
  pub record Response : Type 0 where
    pub status : ℕ
    pub headers : HeaderMap
    pub body : Bytes

  -- `cached_response`, where `open_file` is what opening and reading a path yields, or the message
  -- of the error.
  abbrev pub open_path : Str ⊎ Bytes → Result Bytes
  open_path (inl message) = err (io message)
  open_path (inr body) = ok body

  abbrev pub open_body : (Str → Str ⊎ Bytes) → Option Str → Result Bytes
  open_body open_file none = err internal
  open_body open_file (some path) = open_path (open_file path)

  abbrev pub with_body : ℕ → HeaderMap → Result Bytes → Result Response
  with_body status headers (ok body) =
      ok (record { status = status; headers = headers; body = body })
  with_body status headers (err e) = err e

  abbrev pub with_length :
      (Str → Str ⊎ Bytes) → CacheEntry → HeaderMap → Option HeaderValue → Result Response
  with_length open_file entry headers none = err internal
  with_length open_file entry headers (some value) =
      with_body (status_of entry.status) (insert content_length value headers)
        (open_body open_file entry.body_path)

  unfoldable pub replayed_headers : CacheEntry → HeaderMap
  unfolding insert_pairs strip_hop_by_hop
  replayed_headers entry = strip_hop_by_hop lib (insert_pairs entry.headers empty)

  unfoldable pub cached_response : (Str → Str ⊎ Bytes) → Str → CacheEntry → Result Response
  unfolding replayed_headers to_decimal
  cached_response open_file method entry =
      let headers = replayed_headers entry in
      if str_eq method (codes "HEAD")
      then ok (record { status = status_of entry.status; headers = headers; body = [] })
      else with_length open_file entry headers (from_str (to_decimal entry.body_size))
