-- ===== src/Errors.antt =====
-- src/errors.rs: the error type that every fallible operation returns, and its HTTP status.
use http_cache.Prelude.{ℕ, ◌++◌, Str, codes}

-- An error of a library that the program only forwards is carried as its message.
pub data ProxyError : Type 0 where
  config_read : Str → Str → ProxyError
  config_parse : Str → Str → ProxyError
  config_validation : Str → ProxyError
  io : Str → ProxyError
  sqlite : Str → ProxyError
  http : Str → ProxyError
  bad_request : Str → ProxyError
  header_too_large : ProxyError
  request_body_too_large : ProxyError
  too_many_requests : ProxyError
  policy_denied : Str → ProxyError
  upstream_connect : Str → ProxyError
  timeout : ProxyError
  internal : ProxyError

-- `Result<A, ProxyError>`
pub data Result {ℓ} (A : Type ℓ) : Type ℓ where
  ok : A → Result A
  err : ProxyError → Result A

-- `status_code`
unfoldable pub status_code : ProxyError → ℕ
status_code (bad_request m) = 400
status_code header_too_large = 431
status_code request_body_too_large = 413
status_code too_many_requests = 429
status_code (policy_denied m) = 403
status_code (upstream_connect m) = 502
status_code timeout = 504
status_code _ = 500

-- The `Display` form, which `to_response` sends as the body.
unfoldable pub to_string : ProxyError → Str
to_string (config_read path source) =
    codes "config read failed for " ++ (path ++ (codes ": " ++ source))
to_string (config_parse path source) =
    codes "config parse failed for " ++ (path ++ (codes ": " ++ source))
to_string (config_validation m) = codes "config validation failed: " ++ m
to_string (io m) = codes "io error: " ++ m
to_string (sqlite m) = codes "sqlite error: " ++ m
to_string (http m) = codes "http error: " ++ m
to_string (bad_request m) = codes "bad request: " ++ m
to_string header_too_large = codes "request header too large"
to_string request_body_too_large = codes "request body too large"
to_string too_many_requests = codes "too many requests"
to_string (policy_denied m) = codes "policy denied: " ++ m
to_string (upstream_connect m) = codes "upstream connect failed: " ++ m
to_string timeout = codes "timeout"
to_string internal = codes "internal error"

-- A response whose body is a text.
pub record TextResponse : Type 0 where
  pub text_status : ℕ
  pub text : Str

-- `to_response`: the builder accepts every one of the statuses.
unfoldable pub to_response : ProxyError → TextResponse
unfolding status_code to_string
to_response e = record { text_status = status_code e; text = to_string e }
