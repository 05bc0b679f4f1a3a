-- ===== src/Server/Redaction/Hidden.antt =====
-- What `redact_headers_for_logging` of src/server.rs keeps out of the log.
use http_cache.Server.Redaction.{
  log_entries, is_listed, redacted, redact_headers_for_logging, log_text,
}
use http_cache.Headers.{HeaderLib}
use http_cache.Prelude.{
  if◌then◌else◌, [], ◌∷◌, true, List, Str, ◌≡◌, refl, none, some, false, Option, Bool,
  to_ascii_lowercase, ap, codes, any_of_Memᴰ, str_eq, str_eq_iff, sym,
}
use mathlib.Core.List.{Memᴰ}

module _ (lib : HeaderLib) (redact_headers : List Str) where
  open lib use {HeaderName, HeaderValue, HeaderMap, as_str, to_str, iter}

  unlisted :
      (n : HeaderName) (o : Option Str) (rest : List (Str × Str)) (name text : Str)
      → is_listed redact_headers (as_str n) ≡ false
      → is_listed redact_headers name ≡ true
      → (Memᴰ (name, text) rest → text ≡ redacted)
      → Memᴰ (name, text) (log_text lib redact_headers n o rest)
      → text ≡ redacted
  unlisted n none rest name text plain listed f i = f i
  unlisted n (some t) rest name text plain listed f (Memᴰ.head here) =
      let same : name ≡ as_str n = ap (λ p. p.0) here in
      let both = ap (is_listed redact_headers) same in cc
  unlisted n (some t) rest name text plain listed f (Memᴰ.tail i) = f i

  logged :
      (b : Bool) (n : HeaderName) (o : Option Str) (rest : List (Str × Str)) (name text : Str)
      → is_listed redact_headers (as_str n) ≡ b
      → is_listed redact_headers name ≡ true
      → (Memᴰ (name, text) rest → text ≡ redacted)
      → Memᴰ
          (name, text)
          (if b then (as_str n, redacted) ∷ rest else log_text lib redact_headers n o rest)
      → text ≡ redacted
  logged true n o rest name text e listed f (Memᴰ.head here) = ap (λ p. p.1) here
  logged true n o rest name text e listed f (Memᴰ.tail i) = f i
  logged false n o rest name text e listed f i = unlisted n o rest name text e listed f i

  log_entries_hide :
      (entries : List (HeaderName × HeaderValue)) (name text : Str)
      → is_listed redact_headers name ≡ true
      → Memᴰ (name, text) (log_entries lib redact_headers entries)
      → text ≡ redacted
  unfolding log_entries
  log_entries_hide [] name text listed i = elim i [ ]
  log_entries_hide ((n, v) ∷ entries) name text listed i =
      logged _ n (to_str v) _ name text refl listed (log_entries_hide entries name text listed) i

  -- No value of a header whose name, in lower case, is a configured name in lower case comes into
  -- the log: what is logged under that name is the placeholder.
  pub redact_headers_for_logging_lem :
      (headers : HeaderMap) (name text configured : Str)
      → Memᴰ configured redact_headers
      → name ≡ to_ascii_lowercase configured
      → Memᴰ (name, text) (redact_headers_for_logging lib redact_headers headers)
      → text ≡ codes "<redacted>"
  unfolding redact_headers_for_logging
  redact_headers_for_logging_lem headers name text configured i e =
      log_entries_hide (iter headers) name text (
        any_of_Memᴰ (λ n. str_eq (to_ascii_lowercase n) name) redact_headers configured i
          ((str_eq_iff (to_ascii_lowercase configured) name).1 (sym e)))
