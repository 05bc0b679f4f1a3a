-- ===== src/Tests/UnitTests/Upstreams.antt =====
-- The unit tests of src/http_proxy/upstream.rs.
use http_cache.Errors.{ok}
use http_cache.Tests.UnitTests.{fails_with}
use http_cache.HttpProxy.Upstream.{UriLib, Request, UpstreamTarget, rewrite_absolute_form}
use http_cache.Prelude.Decimal.{to_decimal}
use http_cache.Tests.HandlerTests.{uri_lib}
use http_cache.Tests.HeaderMaps.{header_lib, look_up, without}
use http_cache.Prelude.{◌≡◌, refl, [], ◌++◌, some, none, true, codes, str_eq, Str, Option, ℕ}

abbrev written_authority : Str → Option ℕ → Str
written_authority host none = host
written_authority host (some port) = host ++ (codes ":" ++ to_decimal port)

-- Authorities that write their port out.
abbrev uris : UriLib
uris = record uri_lib { authority_str = λ a. written_authority a.0 a.1 }

abbrev get_of : Str → Option ℕ → Option Str → Request header_lib uris
get_of scheme port path = record {
  method = codes "GET";
  uri = record {
    scheme_part = some scheme;
    authority_part = some (codes "example.com", port);
    path_part = path;
  };
  headers = [];
}

-- What becomes of a request that is rewritten.
abbrev Rewrites :
    Request header_lib uris → (UpstreamTarget → Request header_lib uris → Type 0) → Type 0
Rewrites req Holds =
    (target : UpstreamTarget) × (sent : Request header_lib uris) × (rewrite_absolute_form header_lib
        uris req
      ≡ ok (target, sent))
    × Holds target sent

abbrev RewritesAbsoluteForm : Type 0
RewritesAbsoluteForm = Rewrites (get_of (codes "http") none (some (codes "/a?b=c"))) (λ target sent.
    (target.target_host ≡ codes "example.com")
    × (target.target_port ≡ 80)
    × (uris.to_string sent.uri ≡ codes "/a?b=c")
    × (look_up sent.headers (codes "host") ≡ some (codes "example.com")))

rewrites_absolute_form : RewritesAbsoluteForm
unfolding rewrite_absolute_form str_eq without look_up
rewrites_absolute_form = (_, _, refl, (refl, refl, refl, refl))

abbrev PreservesExplicitPortInHostHeader : Type 0
PreservesExplicitPortInHostHeader =
    Rewrites (get_of (codes "http") (some 8080) (some (codes "/"))) (λ target sent.
      (target.target_port ≡ 8080)
      × (target.target_authority ≡ codes "example.com:8080")
      × (look_up sent.headers (codes "host") ≡ some (codes "example.com:8080")))

preserves_explicit_port_in_host_header : PreservesExplicitPortInHostHeader
unfolding rewrite_absolute_form str_eq without look_up to_decimal
preserves_explicit_port_in_host_header = (_, _, refl, (refl, refl, refl))

abbrev RejectsNonHttpSchemes : Type 0
RejectsNonHttpSchemes =
    fails_with (codes "unsupported scheme")
      (rewrite_absolute_form header_lib uris (get_of (codes "https") none (some (codes "/asset"))))
    ≡ true

rejects_non_http_schemes : RejectsNonHttpSchemes
unfolding rewrite_absolute_form str_eq fails_with
rejects_non_http_schemes = refl

abbrev DefaultsToRootPathWhenMissingPathAndQuery : Type 0
DefaultsToRootPathWhenMissingPathAndQuery =
    Rewrites (get_of (codes "http") none none) (λ target sent.
      (target.target_host ≡ codes "example.com") × (uris.to_string sent.uri ≡ codes "/"))

defaults_to_root_path_when_missing_path_and_query : DefaultsToRootPathWhenMissingPathAndQuery
unfolding rewrite_absolute_form str_eq without
defaults_to_root_path_when_missing_path_and_query = (_, _, refl, (refl, refl))
