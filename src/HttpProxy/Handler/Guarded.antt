-- ===== src/HttpProxy/Handler/Guarded.antt =====
-- What `handle_http` of src/http_proxy/mod.rs has checked before it answers from the cache or asks
-- the upstream.
use http_cache.HttpProxy.Stored.{Response}
use http_cache.HttpProxy.Expiry.{parse_content_length}
use http_cache.Cache.World.{World, M, bind_ok, return}
use http_cache.Policy.Decisions.{Permits, check-Permits}
use http_cache.Errors.{Result, ok, err, ProxyError}
use http_cache.HttpProxy.Upstream.Rewritten.{IsRewritten, rewrite_absolute_form-IsRewritten}
use http_cache.HttpProxy.Handler.{
  Front, limit_body, look_up_cache, replayed, may_replay, forwarded, format_addr, send,
  wrap_limited_request_body, handle_front, answer_or_send, permitted, rewritten,
}
use http_cache.Cache.{Clock}
use http_cache.HttpProxy.LimitedBody.{new, LimitedBody}
use http_cache.Cache.Backend.{Cache, is_enabled}
use http_cache.Cache.Sqlite.{Json, Order}
use http_cache.Policy.{PolicyEngine, check}
use http_cache.HttpProxy.Upstream.{UriLib, Request, UpstreamTarget, rewrite_absolute_form}
use http_cache.Headers.{HeaderLib, strip_hop_by_hop}
use http_cache.Prelude.{
  if◌then◌else◌, true, false, refl, none, some, true, Option, ℕ, ◌≡◌, Str, is_some,
  to_ascii_lowercase, Bool, ◌≤◌, subst, false, arith, codes, ◌⊎◌, str_eq_sound,
}

taken :
    {A : Type 0} (b : Bool) (m : M (Option A)) (w : World) (a : A)
    → ((if b then m else return none) w).0 ≡ ok (some a)
    → b ≡ true
taken true m w a h = refl
taken false m w a h = cc

module _ (lib : HeaderLib) (uris : UriLib) where
  module _ (policy : PolicyEngine) (cache : Cache) (max : ℕ) where
    -- What holds of an outcome, given the target and the rewritten request.
    abbrev pub Upshot :
        Request lib uris → UpstreamTarget → Request lib uris → Front lib uris → Type 0
    Upshot original target req (replayed response) =
        (is_enabled cache ≡ true)
        × ((original.method ≡ codes "GET") ⊎ (original.method ≡ codes "HEAD"))
        × (lib.get original.headers lib.range ≡ none)
    Upshot original target req (forwarded addr sent body) =
        (addr ≡ format_addr target.target_host target.target_port)
        × (sent ≡ record req { headers = strip_hop_by_hop lib req.headers })
        × (body ≡ new max)
        × ((n : ℕ) → parse_content_length lib sent.headers ≡ some n → n ≤ max)

    pub record IsGuarded (original : Request lib uris) (o : Front lib uris) : Type 0 where
      pub target : UpstreamTarget
      pub rewritten_request : Request lib uris
      pub rewrites : IsRewritten lib uris original target rewritten_request
      pub permits : Permits policy (to_ascii_lowercase target.target_host) target.target_port
      pub upshot : Upshot original target rewritten_request o

  replay_allowed :
      (cache : Cache) (original : Request lib uris)
      → may_replay lib uris cache original.method (is_some (lib.get original.headers lib.range))
        ≡ true
      → (is_enabled cache ≡ true)
        × ((original.method ≡ codes "GET") ⊎ (original.method ≡ codes "HEAD"))
        × (lib.get original.headers lib.range ≡ none)
  replay_allowed cache original h = ground (
    arith,
    str_eq_sound original.method (codes "GET"),
    str_eq_sound original.method (codes "HEAD"),
  )

  limit_passed :
      (length : Option ℕ) (max : ℕ) (body : LimitedBody)
      → limit_body lib uris length max ≡ ok body
      → (body ≡ new max) × ((n : ℕ) → length ≡ some n → n ≤ max)
  limit_passed none max body h = (cc, λ n e. cc)
  limit_passed (some m) max body h = ground arith

  module _ (json : Json) (order : Order) (cache : Cache) (policy : PolicyEngine) (max : ℕ)
      (clock : Clock) where
    look_up_allowed :
        (method url : Str) (ranged : Bool) (response : Response lib) (w : World)
        → (look_up_cache lib uris json order cache policy max clock method url ranged w).0
          ≡ ok (some response)
        → may_replay lib uris cache method ranged ≡ true
    unfolding look_up_cache
    look_up_allowed method url ranged response w h =
        taken (may_replay lib uris cache method ranged) _ w response h

    send-Upshot :
        (original : Request lib uris) (target : UpstreamTarget) (req : Request lib uris)
        (r : Result LimitedBody) (w : World) (o : Front lib uris)
        → limit_body lib uris (parse_content_length lib (strip_hop_by_hop lib req.headers)) max ≡ r
        → (send lib uris json order cache policy max clock target
            (record req { headers = strip_hop_by_hop lib req.headers })
            r
            w).0
          ≡ ok o
        → Upshot policy cache max original target req o
    send-Upshot original target req (err e) w o f h = cc
    send-Upshot original target req (ok body) w o f h =
        let e : forwarded (format_addr target.target_host target.target_port)
              (record req { headers = strip_hop_by_hop lib req.headers }) body
            ≡ o =
          cc in
        let (b, n) = limit_passed _ max body f in
        subst (Upshot policy cache max original target req) e (refl, refl, b, n)

    abbrev asked : Request lib uris → M (Option (Response lib))
    asked original =
        look_up_cache lib uris json order cache policy max clock original.method
          (uris.to_string original.uri) (is_some (lib.get original.headers lib.range))

    open-Upshot :
        (original : Request lib uris) (target : UpstreamTarget) (req : Request lib uris)
        (found : Option (Response lib)) (before w : World) (o : Front lib uris)
        → (look_up_cache lib uris json order cache policy max clock original.method
            (uris.to_string original.uri)
            (is_some (lib.get original.headers lib.range))
            before).0
          ≡ ok found
        → (answer_or_send lib uris json order cache policy max clock target req found w).0 ≡ ok o
        → Upshot policy cache max original target req o
    unfolding wrap_limited_request_body
    open-Upshot original target req (some response) before w o e h =
        let f : replayed response ≡ o = cc in
        subst (Upshot policy cache max original target req) f
          (replay_allowed cache original (look_up_allowed original.method _ _ response before e))
    open-Upshot original target req none before w o e h =
        send-Upshot original target req _ w o refl h

    permitted-IsGuarded :
        (original : Request lib uris) (target : UpstreamTarget) (req : Request lib uris)
        (c : Result (Unit {0})) (w : World) (o : Front lib uris)
        → IsRewritten lib uris original target req
        → check policy target.target_host target.target_port ≡ c
        → (permitted lib uris json order cache policy max clock original target req c w).0 ≡ ok o
        → IsGuarded policy cache max original o
    permitted-IsGuarded original target req (err e) w o rewrites f h = cc
    permitted-IsGuarded original target req (ok u) w o rewrites f h =
        let (found, e, g) =
          bind_ok (asked original)
            (answer_or_send lib uris json order cache policy max clock target req) w o h in
        record {
          target = target;
          rewritten_request = req;
          rewrites = rewrites;
          permits = (check-Permits policy target.target_host target.target_port).0 f;
          upshot = open-Upshot original target req found w (asked original w).1 o e g;
        }

    rewritten-IsGuarded :
        (original : Request lib uris) (r : Result (UpstreamTarget × Request lib uris)) (w : World)
        (o : Front lib uris)
        → rewrite_absolute_form lib uris original ≡ r
        → (rewritten lib uris json order cache policy max clock original r w).0 ≡ ok o
        → IsGuarded policy cache max original o
    rewritten-IsGuarded original (err e) w o f h = cc
    rewritten-IsGuarded original (ok (target, req)) w o f h =
        permitted-IsGuarded original target req _ w o
          (rewrite_absolute_form-IsRewritten lib uris original target req f) refl h

    -- Whatever comes of a request before the upstream is asked, whichever calls fail: the request
    -- named an http target that the policy permits. An answer from the cache is given only for GET
    -- or HEAD without a Range header, and only if there is a cache. What goes upstream goes to that
    -- target's host and port, is the rewritten request without its hop-by-hop headers, and has its
    -- body under the limit, which its Content-Length, if that is a u64, does not exceed.
    pub handle_front-IsGuarded :
        (req : Request lib uris) (w : World) (o : Front lib uris)
        → (handle_front lib uris json order cache policy max clock req w).0 ≡ ok o
        → IsGuarded policy cache max req o
    unfolding handle_front
    handle_front-IsGuarded req w o h = rewritten-IsGuarded req _ w o refl h

    -- A target that the policy refuses is refused with the policy's error before anything is looked
    -- up: the rows and files of the cache stay as they are, and no call of it is made.
    pub handle_front_refuses :
        (req sent : Request lib uris) (target : UpstreamTarget) (e : ProxyError) (w : World)
        → rewrite_absolute_form lib uris req ≡ ok (target, sent)
        → check policy target.target_host target.target_port ≡ err e
        → handle_front lib uris json order cache policy max clock req w ≡ (err e, w)
    unfolding handle_front
    handle_front_refuses req sent target e w f g = rw (f, g)
