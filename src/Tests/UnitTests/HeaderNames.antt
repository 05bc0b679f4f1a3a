-- ===== src/Tests/UnitTests/HeaderNames.antt =====
-- The unit tests of src/headers.rs.
use http_cache.Headers.{strip_hop_by_hop}
use http_cache.Tests.HeaderMaps.{Entries, look_up, without, header_lib, name_of}
use http_cache.Prelude.{
  ◌≡◌, refl, some, [], ◌∷◌, codes, str_eq, split, trim, to_ascii_lowercase, false, is_some, true,
}

abbrev listed : Entries
listed =
    (codes "connection", codes "keep-alive, upgrade")
    ∷ (codes "keep-alive", codes "timeout=5")
    ∷ (codes "upgrade", codes "websocket")
    ∷ (codes "proxy-authorization", codes "token")
    ∷ (codes "host", codes "example.com")
    ∷ []

abbrev StripHopByHopHeaders : Type 0
StripHopByHopHeaders =
    let headers = strip_hop_by_hop header_lib listed in
    (is_some (look_up headers (codes "connection")) ≡ false)
    × (is_some (look_up headers (codes "keep-alive")) ≡ false)
    × (is_some (look_up headers (codes "upgrade")) ≡ false)
    × (is_some (look_up headers (codes "proxy-authorization")) ≡ false)
    × (is_some (look_up headers (codes "host")) ≡ true)

strip_hop_by_hop_headers : StripHopByHopHeaders
unfolding strip_hop_by_hop without look_up name_of str_eq split trim to_ascii_lowercase
strip_hop_by_hop_headers = (refl, refl, refl, refl, refl)

abbrev spaced : Entries
spaced =
    (codes "connection", codes " x-custom , x-next ")
    ∷ (codes "x-custom", codes "one")
    ∷ (codes "x-next", codes "two")
    ∷ (codes "x-keep", codes "three")
    ∷ []

abbrev StripsHeadersNamedByConnectionTokens : Type 0
StripsHeadersNamedByConnectionTokens =
    let headers = strip_hop_by_hop header_lib spaced in
    (is_some (look_up headers (codes "x-custom")) ≡ false)
    × (is_some (look_up headers (codes "x-next")) ≡ false)
    × (look_up headers (codes "x-keep") ≡ some (codes "three"))

strips_headers_named_by_connection_tokens : StripsHeadersNamedByConnectionTokens
unfolding strip_hop_by_hop without look_up name_of str_eq split trim to_ascii_lowercase
strips_headers_named_by_connection_tokens = (refl, refl, refl)
