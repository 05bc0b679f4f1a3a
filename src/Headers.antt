-- ===== src/Headers.antt =====
-- src/headers.rs: the headers that a proxy does not pass on, over an interface of hyper's header
-- maps.
pub mod Hops
use mathlib.Core.List.{Memᴰ}
use http_cache.Prelude.{
  Str, List, Option, ℕ, codes, keep, [], some, ◌≡◌, ◌∷◌, not, to_ascii_lowercase, is_empty, map,
  none, trim, ◌≢◌, split, ◌↔◌, ◌≤◌, ◌<◌,
}

-- hyper's header maps, names and values, with what the program relies on. A name is kept in lower
-- case; `iter` yields each value of a name as an entry of its own, in an order that is left open.
pub record HeaderLib : Type 1 where
  pub HeaderName : Type 0
  pub HeaderValue : Type 0
  pub HeaderMap : Type 0
  pub from_bytes : Str → Option HeaderName
  pub as_str : HeaderName → Str
  pub from_str : Str → Option HeaderValue
  pub to_str : HeaderValue → Option Str
  pub value_len : HeaderValue → ℕ
  pub connection : HeaderName
  pub proxy_authorization : HeaderName
  pub content_length : HeaderName
  pub cache_control : HeaderName
  pub expires : HeaderName
  pub host : HeaderName
  pub range : HeaderName
  pub from_u16 : ℕ → Option ℕ  -- the code of an accepted `StatusCode`
  pub empty : HeaderMap
  pub iter : HeaderMap → List (HeaderName × HeaderValue)
  pub get : HeaderMap → HeaderName → Option HeaderValue
  pub insert : HeaderName → HeaderValue → HeaderMap → HeaderMap
  pub remove : HeaderName → HeaderMap → HeaderMap
  pub to_str-from_str :
      (s : Str) (value : HeaderValue) → from_str s ≡ some value → to_str value ≡ some s
  pub from_u16_lem : (status : ℕ) → 100 ≤ status → status < 1000 → from_u16 status ≡ some status
  pub from_bytes-connection : from_bytes (codes "connection") ≡ some connection
  pub get_some :
      (m : HeaderMap) (name : HeaderName) (value : HeaderValue)
      → get m name ≡ some value
      → Memᴰ (name, value) (iter m)
  pub get_none :
      (m : HeaderMap) (name : HeaderName) (value : HeaderValue)
      → get m name ≡ none
      → ¬ Memᴰ (name, value) (iter m)
  pub get-insert_same :
      (m : HeaderMap) (name : HeaderName) (value : HeaderValue)
      → get (insert name value m) name ≡ some value
  pub get-insert_other :
      (m : HeaderMap) (name other : HeaderName) (value : HeaderValue)
      → other ≢ name
      → get (insert name value m) other ≡ get m other
  pub get-remove_other :
      (m : HeaderMap) (name other : HeaderName)
      → other ≢ name
      → get (remove name m) other ≡ get m other
  pub iter-remove :
      (m : HeaderMap) (name : HeaderName) (entry : HeaderName × HeaderValue)
      → Memᴰ entry (iter (remove name m)) ↔ (Memᴰ entry (iter m) × (entry.0 ≢ name))

-- `HOP_BY_HOP`
abbrev pub hop_by_hop : List Str
hop_by_hop =
    codes "connection"
    ∷ codes "proxy-connection"
    ∷ codes "keep-alive"
    ∷ codes "te"
    ∷ codes "trailer"
    ∷ codes "transfer-encoding"
    ∷ codes "upgrade"
    ∷ []

module _ (lib : HeaderLib) where
  open lib use {
    HeaderName, HeaderMap, from_bytes, to_str, connection, proxy_authorization, get, remove,
  }

  abbrev pub remove_some : Option HeaderName → HeaderMap → HeaderMap
  remove_some none m = m
  remove_some (some name) m = remove name m

  unfoldable pub remove_each : List Str → HeaderMap → HeaderMap
  remove_each [] m = m
  remove_each (s ∷ names) m = remove_each names (remove_some (from_bytes s) m)

  -- The names that a `Connection` value lists.
  abbrev pub listed_names : Str → List Str
  listed_names value = keep (λ s. not (is_empty s)) (map trim (split b',' value))

  abbrev pub names_of_text : Option Str → List Str
  names_of_text none = []
  names_of_text (some value) = listed_names value

  abbrev pub names_of_value : Option lib.HeaderValue → List Str
  names_of_value none = []
  names_of_value (some value) = names_of_text (to_str value)

  abbrev pub connection_names : HeaderMap → List Str
  connection_names m = names_of_value (get m connection)

  unfoldable pub strip_hop_by_hop : HeaderMap → HeaderMap
  unfolding remove_each
  strip_hop_by_hop m =
      remove proxy_authorization (remove_each hop_by_hop (remove_each (connection_names m) m))
