-- ===== src/Server/Requests/Unlogged.antt =====
-- What `handle_request` of src/server.rs keeps out of the lines that it logs.
use http_cache.Errors.{Result, err, ok}
use http_cache.Server.RateLimit.{IpAddr, IpRateLimiter}
use http_cache.HttpProxy.Expiry.{DateReader}
use http_cache.Cache.Sqlite.{Json, Order}
use http_cache.HttpProxy.Upstream.{UriLib, Request}
use http_cache.Headers.{HeaderLib}
use http_cache.Prelude.{
  refl, [], ◌∷◌, inl, inr, List, Str, ◌≡◌, All, ◌⊎◌, to_ascii_lowercase, subst, codes, sym, ℕ,
}
use mathlib.Core.List.{Memᴰ}
use http_cache.Server.Redaction.{redact_headers_for_logging}
use http_cache.Server.Redaction.Hidden.{redact_headers_for_logging_lem}
use http_cache.HttpProxy.Forwarding.{from_cache, from_upstream, Readings, Network, Shared}
use http_cache.Server.Requests.{
  AppState, Proxy, LogLine, request_span, request_details, limit_rejected, request_failed,
  response_details, Outcome, tunnelled, replied, failed, outcome_line, after_limits, handle_request,
}

-- The headers in a line.
abbrev pub headers_in : LogLine → List (Str × Str)
headers_in (request_span span) = []
headers_in (request_details headers) = headers
headers_in (limit_rejected message) = []
headers_in (request_failed message) = []
headers_in (response_details status headers) = headers

module _ (lib : HeaderLib) (uris : UriLib) (names : List Str) where
  -- A line has no headers, or those of a map, redacted.
  abbrev IsRedacted : LogLine → Type 0
  IsRedacted line =
      (headers_in line ≡ [])
      ⊎ ((m : lib.HeaderMap) × (headers_in line ≡ redact_headers_for_logging lib names m))

  outcome_line-IsRedacted : (o : Outcome lib uris) → IsRedacted (outcome_line lib uris names o)
  unfolding outcome_line
  outcome_line-IsRedacted (tunnelled tunnel) = inr (lib.empty, refl)
  outcome_line-IsRedacted (replied (from_cache response)) = inr (response.headers, refl)
  outcome_line-IsRedacted (replied (from_upstream answer decision)) =
      inr (answer.answer_headers, refl)
  outcome_line-IsRedacted (failed page) = inl refl

  hidden :
      (line : LogLine) (name text configured : Str)
      → IsRedacted line
      → Memᴰ configured names
      → name ≡ to_ascii_lowercase configured
      → Memᴰ (name, text) (headers_in line)
      → text ≡ codes "<redacted>"
  hidden line name text configured (inl none_there) i e at =
      elim (subst (Memᴰ (name, text)) none_there at) [ ]
  hidden line name text configured (inr (m, same)) i e at =
      redact_headers_for_logging_lem lib names m name text configured i e
        (subst (Memᴰ (name, text)) same at)

  each_line :
      (lines : List LogLine)
      → All IsRedacted lines
      → (line : LogLine) → Memᴰ line lines
      → IsRedacted line
  each_line [] rs line i = elim i [ ]
  each_line (l ∷ lines) (r, rs) line (Memᴰ.head here) = subst IsRedacted (sym here) r
  each_line (l ∷ lines) (r, rs) line (Memᴰ.tail at) = each_line lines rs line at

module _ (lib : HeaderLib) (uris : UriLib) (json : Json) (order : Order)
    (parse_http_date : DateReader) (state : AppState) (readings : Readings)
    (net : Network lib uris) where
  abbrev names_of : List Str
  names_of = state.config.logging.redact_headers

  after_limits-IsRedacted :
      (req : Request lib uris) (r : IpRateLimiter × Result (Unit {0})) (s : Shared)
      → All
          (IsRedacted lib uris names_of)
          (after_limits lib uris json order parse_http_date state readings net req r s).2
  after_limits-IsRedacted req (limiter, err e) s = (inl refl, tt)
  after_limits-IsRedacted req (limiter, ok u) s = (outcome_line-IsRedacted lib uris names_of _, tt)

  -- Whatever comes of a request, no line that `handle_request` itself logs, neither on the request
  -- nor on the response, shows among its headers the value of one whose name is configured, whatever
  -- the case of its letters, to be redacted: what stands there is the placeholder. The lines of
  -- `handle_http`, `handle_connect` and the spawned tasks are not among them.
  pub handle_request_hides :
      (uuid : Str) (client_ip : IpAddr) (now_second : ℕ) (req : Request lib uris) (p : Proxy)
      (line : LogLine) (name text configured : Str)
      → Memᴰ line
          (handle_request lib uris json order parse_http_date state readings net uuid client_ip
            now_second req p).2
      → Memᴰ configured state.config.logging.redact_headers
      → name ≡ to_ascii_lowercase configured
      → Memᴰ (name, text) (headers_in line)
      → text ≡ codes "<redacted>"
  unfolding handle_request
  handle_request_hides uuid client_ip now_second req p line name text configured i =
      hidden lib uris names_of line name text configured (
        each_line lib uris names_of _
          (inl refl, (inr (req.headers, refl), after_limits-IsRedacted req _ p.shared)) line i)
