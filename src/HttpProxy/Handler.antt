-- ===== src/HttpProxy/Handler.antt =====
-- src/http_proxy/mod.rs: `handle_http` as far as the connection to the upstream, and
-- `wrap_limited_request_body`.
pub mod Guarded
use http_cache.Cache.Backend
use http_cache.Prelude.Decimal.{to_decimal}
use http_cache.Policy.{PolicyEngine, check}
use http_cache.Cache.Sqlite.{Json, Order}
use http_cache.Cache.Backend.{Cache, is_enabled}
use http_cache.Cache.{CacheEntry, Clock}
use http_cache.HttpProxy.Expiry.{parse_content_length}
use http_cache.HttpProxy.LimitedBody.{new, LimitedBody}
use http_cache.Body.{Bytes}
use http_cache.HttpProxy.Stored.{Response, cached_response}
use http_cache.HttpProxy.Upstream.{UriLib, Request, UpstreamTarget, rewrite_absolute_form}
use http_cache.Cache.World.{◌>>=◌, World, M, return, later}
use http_cache.Errors.{ProxyError, Result, err, ok, request_body_too_large}
use http_cache.Headers.{HeaderLib, strip_hop_by_hop}
use http_cache.Prelude.{
  none, some, [], ◌∷◌, inl, Str, ◌⊎◌, Option, ℕ, ◌++◌, codes, Bool, if◌then◌else◌, ltb, ◌&&◌,
  str_eq, ◌||◌, not, inr, is_some,
}

-- What the request comes to before the upstream is asked: an answer from the cache, or a request to
-- an address with the limit on its body.
pub data Front (lib : HeaderLib) (uris : UriLib) : Type 0 where
  replayed : Response lib → Front lib uris
  forwarded : Str → Request lib uris → LimitedBody → Front lib uris

-- The error of a step that does not touch the world.
abbrev pub fail_with : {A : Type 0} → ProxyError → M A
fail_with e w = (err e, w)

abbrev pub found_file : Option Bytes → Str ⊎ Bytes
found_file none = inl (codes "not found")
found_file (some body) = inr body

-- Opening and reading a file, which fails with the next fault or if there is none.
abbrev pub read_file : World → Str → Str ⊎ Bytes
read_file w path = elim w.faults [
  | [] ↦ found_file (w.files path)
  | fault ∷ faults ↦ elim fault [ none ↦ found_file (w.files path) | some m ↦ inl m ]
]

abbrev pub ok_only : {A : Type 0} → Result A → Option A
ok_only (ok a) = some a
ok_only (err e) = none

abbrev pub format_addr : Str → ℕ → Str
format_addr host port = host ++ (codes ":" ++ to_decimal port)

module _ (lib : HeaderLib) (uris : UriLib) where
  -- `wrap_limited_request_body`
  abbrev pub limit_body : Option ℕ → ℕ → Result LimitedBody
  limit_body none max = ok (new max)
  limit_body (some content_length) max =
      if ltb max content_length then err request_body_too_large else ok (new max)

  unfoldable pub wrap_limited_request_body : Request lib uris → ℕ → Result LimitedBody
  unfolding parse_content_length new
  wrap_limited_request_body req max = limit_body (parse_content_length lib req.headers) max

  -- An entry that cannot be replayed is passed over.
  unfoldable pub replay : Str → CacheEntry → M (Option (Response lib))
  replay method entry w = (
    ok (ok_only (cached_response lib (read_file w) method entry)),
    record w { faults = later w.faults },
  )

  abbrev pub replay_found : Str → Option CacheEntry → M (Option (Response lib))
  replay_found method none = return none
  replay_found method (some entry) = replay method entry

  abbrev pub may_replay : Cache → Str → Bool → Bool
  may_replay cache method ranged =
      is_enabled cache
      && (str_eq method (codes "GET") || str_eq method (codes "HEAD"))
      && not ranged

  module _ (json : Json) (order : Order) (cache : Cache) (policy : PolicyEngine)
      (max_request_body_bytes : ℕ) (clock : Clock) where
    unfoldable pub look_up_cache : Str → Str → Bool → M (Option (Response lib))
    unfolding replay
    look_up_cache method url ranged =
        if may_replay cache method ranged
        then (do found ← Backend.get json order cache clock method url; replay_found method found)
        else return none

    abbrev pub send : UpstreamTarget → Request lib uris → Result LimitedBody → M (Front lib uris)
    send target req (ok body) =
        return (forwarded (format_addr target.target_host target.target_port) req body)
    send target req (err e) = fail_with e

    abbrev pub answer_or_send :
        UpstreamTarget → Request lib uris → Option (Response lib) → M (Front lib uris)
    answer_or_send target req (some response) = return (replayed response)
    answer_or_send target req none =
        let stripped = record req { headers = strip_hop_by_hop lib req.headers } in
        send target stripped (wrap_limited_request_body stripped max_request_body_bytes)

    abbrev pub permitted :
        Request lib uris
        → UpstreamTarget
        → Request lib uris
        → Result (Unit {0})
        → M (Front lib uris)
    permitted original target req (err e) = fail_with e
    permitted original target req (ok u) = do
      found ←
          look_up_cache original.method (uris.to_string original.uri)
            (is_some (lib.get original.headers lib.range))
      answer_or_send target req found

    abbrev pub rewritten :
        Request lib uris → Result (UpstreamTarget × Request lib uris) → M (Front lib uris)
    rewritten original (err e) = fail_with e
    rewritten original (ok (target, req)) =
        permitted original target req (check policy target.target_host target.target_port)

    unfoldable pub handle_front : Request lib uris → M (Front lib uris)
    unfolding look_up_cache wrap_limited_request_body check rewrite_absolute_form strip_hop_by_hop
    handle_front req = rewritten req (rewrite_absolute_form lib uris req)
