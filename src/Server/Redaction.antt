-- ===== src/Server/Redaction.antt =====
-- src/server.rs: `redact_headers_for_logging`.
pub mod Hidden
use http_cache.Headers.{HeaderLib}
use http_cache.Prelude.{
  none, some, [], ◌∷◌, Str, List, codes, Bool, Option, if◌then◌else◌, any, str_eq,
  to_ascii_lowercase,
}

abbrev pub redacted : Str
redacted = codes "<redacted>"

-- `redact_names.contains(name)`
abbrev pub is_listed : List Str → Str → Bool
is_listed redact_headers name = any (λ n. str_eq (to_ascii_lowercase n) name) redact_headers

module _ (lib : HeaderLib) (redact_headers : List Str) where
  open lib use {HeaderName, HeaderValue, HeaderMap, as_str, to_str, iter}

  abbrev pub log_text : HeaderName → Option Str → List (Str × Str) → List (Str × Str)
  log_text name none rest = rest
  log_text name (some value) rest = (as_str name, value) ∷ rest

  unfoldable pub log_entries : List (HeaderName × HeaderValue) → List (Str × Str)
  log_entries [] = []
  log_entries ((name, value) ∷ entries) =
      let rest = log_entries entries in
      if is_listed redact_headers (as_str name)
      then (as_str name, redacted) ∷ rest
      else log_text name (to_str value) rest

  unfoldable pub redact_headers_for_logging : HeaderMap → List (Str × Str)
  unfolding log_entries
  redact_headers_for_logging headers = log_entries (iter headers)
