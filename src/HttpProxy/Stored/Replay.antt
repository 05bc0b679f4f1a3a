-- ===== src/HttpProxy/Stored/Replay.antt =====
-- What src/http_proxy stores of a response's headers, and what a hit makes of an entry.
use http_cache.Errors.{ok}
use http_cache.Prelude.DecimalLaws.{parse_u64-to_decimal}
use http_cache.Prelude.Decimal.{to_decimal, parse_u64}
use http_cache.Prelude.Words.{u64_max}
use http_cache.Body.{Bytes}
use http_cache.Cache.{CacheEntry}
use http_cache.HttpProxy.Expiry.{parse_content_length}
use http_cache.Headers.Hops.{IsHop, strip_hop_by_hop-Without, Spelled}
use http_cache.HttpProxy.Stored.{
  to_pairs, headers_for_storage, insert_pairs, push_text, cached_response, replayed_headers,
  status_of, Response,
}
use http_cache.Headers.{HeaderLib, strip_hop_by_hop, hop_by_hop}
use http_cache.Prelude.{
  refl, none, some, [], ◌∷◌, inl, inr, List, Option, Str, ◌≢◌, ◌≡◌, ◌↔◌, ap, ◌∙◌, sym, false, ◌⊎◌,
  ◌≤◌, str_eq, ◌<◌, codes,
}
use mathlib.Core.List.{Memᴰ}

module _ (lib : HeaderLib) where
  open lib use {
    HeaderName, HeaderValue, HeaderMap, from_bytes, as_str, from_str, to_str, content_length, empty,
    iter, get, insert,
  }

  -- The stored pairs that stand for some entry.
  abbrev Printed : List (HeaderName × HeaderValue) → Str → Str → Type 0
  Printed entries name text =
      (n : HeaderName) × (v : HeaderValue) × Memᴰ (n, v) entries
      × (as_str n ≡ name)
      × (to_str v ≡ some text)

  Printed-tail :
      (n : HeaderName) (v : HeaderValue) (entries : List (HeaderName × HeaderValue))
      (name text : Str)
      → Printed entries name text
      → Printed ((n, v) ∷ entries) name text
  Printed-tail n v entries name text (m, u, i, e, f) = (m, u, Memᴰ.tail i, e, f)

  push_sound :
      (n : HeaderName) (v : HeaderValue) (o : Option Str) (rest : List (Str × Str))
      (entries : List (HeaderName × HeaderValue)) (name text : Str)
      → to_str v ≡ o
      → (Memᴰ (name, text) rest → Printed entries name text)
      → Memᴰ (name, text) (push_text lib n o rest)
      → Printed ((n, v) ∷ entries) name text
  push_sound n v none rest entries name text e f i = Printed-tail n v entries name text (f i)
  push_sound n v (some t) rest entries name text e f (Memᴰ.head here) =
      (n, v, Memᴰ.head refl, sym (ap (λ p. p.0) here), e ∙ ap some (sym (ap (λ p. p.1) here)))
  push_sound n v (some t) rest entries name text e f (Memᴰ.tail i) =
      Printed-tail n v entries name text (f i)

  push_tail :
      (n : HeaderName) (o : Option Str) (rest : List (Str × Str)) (pair : Str × Str)
      → Memᴰ pair rest
      → Memᴰ pair (push_text lib n o rest)
  push_tail n none rest pair i = i
  push_tail n (some t) rest pair i = Memᴰ.tail i

  push_head :
      (n : HeaderName) (o : Option Str) (rest : List (Str × Str)) (name text : Str)
      → as_str n ≡ name
      → o ≡ some text
      → Memᴰ (name, text) (push_text lib n o rest)
  push_head n none rest name text e f = cc
  push_head n (some t) rest name text e f = Memᴰ.head cc

  to_pairs_sound :
      (entries : List (HeaderName × HeaderValue)) (name text : Str)
      → Memᴰ (name, text) (to_pairs lib entries)
      → Printed entries name text
  unfolding to_pairs
  to_pairs_sound [] name text i = elim i [ ]
  to_pairs_sound ((n, v) ∷ entries) name text i =
      push_sound n v (to_str v) _ entries name text refl (to_pairs_sound entries name text) i

  to_pairs_complete :
      (entries : List (HeaderName × HeaderValue)) (name text : Str)
      → Printed entries name text
      → Memᴰ (name, text) (to_pairs lib entries)
  unfolding to_pairs
  to_pairs_complete [] name text (n, v, i, e, f) = elim i [ ]
  to_pairs_complete ((n, v) ∷ entries) name text (m, u, Memᴰ.head here, e, f) =
      push_head n (to_str v) _ name text (ap (λ p. as_str p.0) (sym here) ∙ e)
        (ap (λ p. to_str p.1) (sym here) ∙ f)
  to_pairs_complete ((n, v) ∷ entries) name text (m, u, Memᴰ.tail i, e, f) =
      push_tail n (to_str v) _ (name, text) (to_pairs_complete entries name text (m, u, i, e, f))

  -- What is stored is exactly the entries of the response whose name belongs to no hop and whose
  -- value is text.
  headers_for_storage-Printed :
      (m : HeaderMap) (name text : Str)
      → Memᴰ (name, text) (headers_for_storage lib m) ↔ (
          (n : HeaderName) × (v : HeaderValue) × Memᴰ (n, v) (iter m)
          × ¬ IsHop lib m n
          × (as_str n ≡ name)
          × (to_str v ≡ some text))
  unfolding headers_for_storage
  headers_for_storage-Printed m name text = (
    λ i.
        let (n, v, j, e, f) = to_pairs_sound (iter (strip_hop_by_hop lib m)) name text i in
        let (k, out) = ((strip_hop_by_hop-Without lib m).entries (n, v)).0 j in
        (n, v, k, out, e, f),
    λ (n, v, k, out, e, f).
        to_pairs_complete (iter (strip_hop_by_hop lib m)) name text
          (n, v, ((strip_hop_by_hop-Without lib m).entries (n, v)).1 (k, out), e, f),
  )

  -- What a hit is to send for an entry: the stored status, body and size, and the stored headers of
  -- no hop.
  pub record Replays (entry : CacheEntry) (bytes : Bytes) (r : Response lib) : Type 0 where
    pub status : r.status ≡ entry.status
    pub body : r.body ≡ bytes
    pub size : parse_content_length lib r.headers ≡ some entry.body_size
    pub no_hop :
        (name : HeaderName)
        → name ≢ content_length
        → Spelled lib hop_by_hop name
        → get r.headers name ≡ none

  length_read :
      (m : HeaderMap) (value : HeaderValue) (text : Str)
      → get m content_length ≡ some value
      → to_str value ≡ some text
      → parse_content_length lib m ≡ parse_u64 text
  unfolding parse_content_length
  length_read m value text e f = rw (parse_content_length, e, f)

  replayed :
      (entry : CacheEntry) (body : Bytes) (value : HeaderValue)
      → 100 ≤ entry.status
      → entry.status < 1000
      → entry.body_size ≤ u64_max
      → from_str (to_decimal entry.body_size) ≡ some value
      → Replays entry body (record {
        status = status_of lib entry.status;
        headers = insert content_length value (replayed_headers lib entry);
        body = body;
      })
  unfolding replayed_headers
  replayed entry body value low high fits e = record {
    status = rw (lib.from_u16_lem entry.status low high);
    body = refl;
    size =
        length_read _ value _
          (lib.get-insert_same (replayed_headers lib entry) content_length value)
          (lib.to_str-from_str _ value e)
        ∙ parse_u64-to_decimal entry.body_size fits;
    no_hop = λ name differs spelled.
        lib.get-insert_other _ content_length name value differs
        ∙ (strip_hop_by_hop-Without lib (insert_pairs lib entry.headers empty)).gone name
            (inl spelled);
  }

  -- A hit on an entry whose status is one of HTTP, whose body file can be read and whose size can be
  -- written as a header value, answered to any method but HEAD, succeeds with the stored status, the
  -- file's bytes, a Content-Length that reads as the stored size, and no hop-by-hop header but that.
  pub cached_response-Replays :
      (open_file : Str → Str ⊎ Bytes) (method path : Str) (entry : CacheEntry) (body : Bytes)
      (value : HeaderValue)
      → str_eq method (codes "HEAD") ≡ false
      → entry.body_path ≡ some path
      → open_file path ≡ inr body
      → 100 ≤ entry.status
      → entry.status < 1000
      → entry.body_size ≤ u64_max
      → from_str (to_decimal entry.body_size) ≡ some value
      → (r : Response lib) × (cached_response lib open_file method entry ≡ ok r)
        × Replays entry body r
  unfolding cached_response
  cached_response-Replays open_file method path entry body value other p file low high fits e =
      (_, rw (other, e, p, file), replayed entry body value low high fits e)
