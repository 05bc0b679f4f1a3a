-- ===== src/Tests/HeaderTests.antt =====
-- Inputs for the theorems on src/headers.rs, src/http_proxy/headers.rs and the replay of an entry.
use http_cache.HttpProxy.Expiry.Least.{IsLeast}
use http_cache.Errors.{ok}
use http_cache.Headers.{hop_by_hop, connection_names}
use http_cache.Prelude.{any, any_of_Memᴰ, Bool, inl, str_eq_refl, subst, true}
use mathlib.Core.Option.{get_or}
use mathlib.Core.List.{Memᴰ}
use http_cache.Cache.{CacheEntry}
use http_cache.Prelude.Decimal.{parse_u64, to_decimal}
use http_cache.Prelude.Int.{ℤ, pos}
use http_cache.HttpProxy.Stored.Repeated.{cached_response_last}
use http_cache.HttpProxy.Stored.Replay.{Replays, cached_response-Replays}
use http_cache.Body.{Bytes}
use http_cache.HttpProxy.Stored.{Response, insert_pairs, cached_response}
use http_cache.HttpProxy.Expiry.Bounds.{IsBarred, terms_of, Bound, compute_expiry-IsLeast}
use http_cache.HttpProxy.Expiry.{compute_expiry}
use http_cache.Headers.Hops.{Without, IsHop, strip_hop_by_hop-Without}
use http_cache.Headers.{strip_hop_by_hop}
use http_cache.Tests.HeaderMaps.{Entries, look_up, without, header_lib, name_of}
use http_cache.Prelude.{
  refl, none, some, [], ◌∷◌, inr, codes, List, Str, ◌⊎◌, ◌≡◌, Option, str_eq, false, arith,
}
use mathlib.Core.Option
use http_cache.Prelude.{str_eq, split, trim, to_ascii_lowercase, eq_ignore_ascii_case, strip_prefix}

-- `strip_hop_by_hop_headers`, with a name that only `Connection` lists.
abbrev headers : Entries
headers =
    (codes "connection", codes "keep-alive, X-Hop")
    ∷ (codes "keep-alive", codes "timeout=5")
    ∷ (codes "x-hop", codes "one")
    ∷ (codes "proxy-authorization", codes "token")
    ∷ (codes "host", codes "example.com")
    ∷ []

stripped : strip_hop_by_hop header_lib headers ≡ (codes "host", codes "example.com") ∷ []
unfolding strip_hop_by_hop without look_up name_of str_eq split trim to_ascii_lowercase
stripped = refl

strip_hop_by_hop-Without_example :
    Without header_lib (IsHop header_lib headers) headers (strip_hop_by_hop header_lib headers)
strip_hop_by_hop-Without_example = strip_hop_by_hop-Without header_lib headers

abbrev fresh : Entries
fresh = (codes "cache-control", codes "public, max-age=60") ∷ (codes "expires", codes "1300") ∷ []

-- Dates written as seconds.
parse_u64_date : Str → Option ℤ
parse_u64_date text = Option.map pos (parse_u64 text)

kept_until : compute_expiry header_lib parse_u64_date (some 1000) fresh 300 ≡ some (pos 1060)
unfolding compute_expiry look_up parse_u64_date parse_u64 str_eq split trim eq_ignore_ascii_case
    strip_prefix
kept_until = refl

compute_expiry-IsLeast_example :
    (IsBarred (terms_of header_lib (some 1000) fresh 300)
      → compute_expiry header_lib parse_u64_date (some 1000) fresh 300 ≡ none)
    × (¬ IsBarred (terms_of header_lib (some 1000) fresh 300)
        → (t : ℤ) × (compute_expiry header_lib parse_u64_date (some 1000) fresh 300 ≡ some t)
          × IsLeast (Bound parse_u64_date (terms_of header_lib (some 1000) fresh 300)) t)
compute_expiry-IsLeast_example =
    compute_expiry-IsLeast header_lib parse_u64_date (some 1000) fresh 300

-- Of two cookies only the later is answered from the cache.
abbrev cookies : List (Str × Str)
cookies = (codes "set-cookie", codes "a=1") ∷ (codes "set-cookie", codes "b=2") ∷ []

set_cookie : name_of (codes "set-cookie") ≡ some (codes "set-cookie")
unfolding name_of to_ascii_lowercase
set_cookie = refl

abbrev stored : CacheEntry
stored = record {
  key = codes "GET http://example.com/a";
  method = codes "GET";
  url = codes "http://example.com/a";
  status = 200;
  headers = cookies;
  body_path = some (codes "/cache/a");
  body_size = 5;
  created_at = pos 1000;
  expires_at = pos 1300;
  last_access = pos 1000;
}

-- What the replay asks of its inputs.
not_head : str_eq (codes "GET") (codes "HEAD") ≡ false
unfolding str_eq
not_head = refl

five : ◌≡◌ {A = Option Str} (some (to_decimal 5)) (some (codes "5"))
unfolding to_decimal
five = refl

abbrev open_file : Str → Str ⊎ Bytes
open_file path = inr (codes "hello")

cached_response-Replays_example :
    (r : Response header_lib) × (cached_response header_lib open_file (codes "GET") stored ≡ ok r)
    × Replays header_lib stored (codes "hello") r
cached_response-Replays_example =
    cached_response-Replays header_lib open_file (codes "GET") (codes "/cache/a") stored
      (codes "hello") (codes "5") not_head refl refl (omega arith) (omega arith) (omega arith) five

-- The hit on that entry.
abbrev replayed_last : Response header_lib
replayed_last = record {
  status = 200;
  headers = (codes "content-length", codes "5") ∷ (codes "set-cookie", codes "b=2") ∷ [];
  body = codes "hello";
}

hits : cached_response header_lib open_file (codes "GET") stored ≡ ok replayed_last
unfolding cached_response without look_up name_of str_eq to_ascii_lowercase to_decimal
hits = refl

-- The name is none of those that are taken out, and no Connection value is stored.
spells_cookie : Str → Bool
spells_cookie s = str_eq (get_or (name_of s) []) (codes "set-cookie")

spelled_cookie : (s : Str) → name_of s ≡ some (codes "set-cookie") → spells_cookie s ≡ true
unfolding spells_cookie
spelled_cookie s e = rw (e, str_eq_refl (codes "set-cookie"))

none_is_cookie : any spells_cookie hop_by_hop ≡ false
unfolding spells_cookie name_of to_ascii_lowercase str_eq
none_is_cookie = refl

no_connection : connection_names header_lib (insert_pairs header_lib stored.headers []) ≡ []
unfolding connection_names insert_pairs look_up without name_of to_ascii_lowercase str_eq
no_connection = refl

only_cookie : ¬ IsHop header_lib (insert_pairs header_lib stored.headers []) (codes "set-cookie")
only_cookie (inl (s, i, e)) =
    let found = any_of_Memᴰ spells_cookie hop_by_hop s i (spelled_cookie s e) in
    let none_found = none_is_cookie in cc
only_cookie (inr (inl (s, i, e))) = elim (subst (Memᴰ s) no_connection i) [ ]
only_cookie (inr (inr e)) = cc

cached_response_last_example :
    look_up replayed_last.headers (codes "set-cookie") ≡ some (codes "b=2")
cached_response_last_example =
    cached_response_last header_lib open_file (codes "GET") stored replayed_last
      ((codes "set-cookie", codes "a=1") ∷ []) [] (codes "set-cookie") (codes "b=2")
      (codes "set-cookie") (codes "b=2") hits refl set_cookie refl tt (λ e. cc) only_cookie
