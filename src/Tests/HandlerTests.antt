-- ===== src/Tests/HandlerTests.antt =====
-- Inputs for the theorems on src/http_proxy/upstream.rs and src/http_proxy/mod.rs.
use http_cache.Cache.Backend
use http_cache.Cache.Sqlite
use http_cache.Prelude.Decimal.{to_decimal, parse_u64}
use http_cache.Prelude.Decimal.{parse_u64}
use mathlib.Core.Option.{get_or}
use http_cache.Tests.Headers.{json}
use http_cache.HttpProxy.LimitedBody.{new}
use http_cache.Prelude.{strip_prefix, str_eq, to_ascii_lowercase, split, trim, ap, sym}
use http_cache.Policy.{domain_matches}
use http_cache.Tests.Fixtures.{order}
use http_cache.Tests.HeaderMaps.{header_lib, without, look_up, name_of}
use http_cache.Errors.{ProxyError, policy_denied, ok, err}
use http_cache.HttpProxy.Handler.Guarded.{IsGuarded, handle_front-IsGuarded}
use http_cache.HttpProxy.Handler.{Front, handle_front, forwarded}
use http_cache.HttpProxy.Upstream.Rewritten.{IsRewritten, rewrite_absolute_form-IsRewritten}
use http_cache.Cache.Backend.{is_enabled, Cache, sqlite_cache}
use http_cache.Cache.World.{World}
use http_cache.Policy.{PolicyEngine, check}
use http_cache.HttpProxy.Upstream.{UriLib, rewrite_absolute_form, Request, UpstreamTarget}
use http_cache.Prelude.{refl, none, some, [], ◌∷◌, Option, Str, ℕ, codes, str_eq, ◌≡◌}

-- URIs by their parts.
pub record Parts : Type 0 where
  pub scheme_part : Option Str
  pub authority_part : Option (Str × Option ℕ)
  pub path_part : Option Str

abbrev pub built : Str → Parts
built path = record { scheme_part = none; authority_part = none; path_part = some path }

pub path_lem :
    (path : Str) (uri : Parts)
    → ◌≡◌ {A = Option Parts} (some (built path)) (some uri)
    → uri.path_part ≡ some path
path_lem path uri e = let f : built path ≡ uri = cc in ap (λ u. u.path_part) (sym f)

pub scheme_lem :
    (path : Str) (uri : Parts)
    → ◌≡◌ {A = Option Parts} (some (built path)) (some uri)
    → uri.scheme_part ≡ none
scheme_lem path uri e = let f : built path ≡ uri = cc in ap (λ u. u.scheme_part) (sym f)

abbrev pub uri_lib : UriLib
uri_lib = record {
  Uri = Parts;
  Authority = Str × Option ℕ;
  to_string = λ uri. get_or uri.path_part (codes "/");
  scheme = λ uri. uri.scheme_part;
  authority = λ uri. uri.authority_part;
  path_and_query = λ uri. uri.path_part;
  authority_host = λ a. a.0;
  port_u16 = λ a. a.1;
  authority_str = λ a. a.0;
  origin_form = λ path. some (built path);
  path_and_query-origin_form = path_lem;
  scheme-origin_form = scheme_lem;
}

abbrev pub request_to : Str → Request header_lib uri_lib
request_to host = record {
  method = codes "GET";
  uri = record {
    scheme_part = some (codes "http");
    authority_part = some (host, some 80);
    path_part = some (codes "/a");
  };
  headers = (codes "keep-alive", codes "timeout=5") ∷ (codes "content-length", codes "5") ∷ [];
}

abbrev pub policy : PolicyEngine
policy = record {
  allowed_domains = codes "*" ∷ [];
  denied_domains = codes "bad.com" ∷ [];
  allowed_ports = 80 ∷ [];
  denied_ports = [];
}

abbrev pub empty_world : World
empty_world = record { rows = []; files = λ path. none; faults = [] }

abbrev pub cache : Cache
cache = sqlite_cache (record { dir = codes ".cache"; db_path = codes "db"; max_entries = 2 })

abbrev pub target_at : Str → UpstreamTarget
target_at host = record { target_host = host; target_port = 80; target_authority = host }

abbrev pub sent_to : Str → Request header_lib uri_lib
sent_to host = record {
  method = codes "GET";
  uri = record { scheme_part = none; authority_part = none; path_part = some (codes "/a") };
  headers =
      (codes "host", host)
      ∷ (codes "keep-alive", codes "timeout=5")
      ∷ (codes "content-length", codes "5")
      ∷ [];
}

pub rewrites :
    rewrite_absolute_form header_lib uri_lib (request_to (codes "good.com"))
    ≡ ok (target_at (codes "good.com"), sent_to (codes "good.com"))
unfolding rewrite_absolute_form str_eq without
rewrites = refl

rewrite_absolute_form-IsRewritten_example :
    IsRewritten header_lib uri_lib
      (request_to (codes "good.com"))
      (target_at (codes "good.com"))
      (sent_to (codes "good.com"))
rewrite_absolute_form-IsRewritten_example =
    rewrite_absolute_form-IsRewritten header_lib uri_lib (request_to (codes "good.com"))
      (target_at (codes "good.com")) (sent_to (codes "good.com")) rewrites

abbrev front_outcome : Front header_lib uri_lib
front_outcome =
    forwarded (codes "good.com:80")
      (record (sent_to (codes "good.com")) {
        headers = (codes "host", codes "good.com") ∷ (codes "content-length", codes "5") ∷ [];
      })
      (new 10)

forwards :
    (handle_front header_lib uri_lib json order cache policy 10 none
      (request_to (codes "good.com"))
      empty_world).0
    ≡ ok front_outcome
unfolding handle_front domain_matches str_eq strip_prefix to_ascii_lowercase split trim without
    look_up name_of parse_u64 is_enabled Backend.get Sqlite.get to_decimal
forwards = refl

handle_front-IsGuarded_example :
    IsGuarded header_lib uri_lib policy cache 10 (request_to (codes "good.com")) front_outcome
handle_front-IsGuarded_example =
    handle_front-IsGuarded header_lib uri_lib json order cache policy 10 none
      (request_to (codes "good.com")) empty_world front_outcome forwards

rewrites_bad :
    rewrite_absolute_form header_lib uri_lib (request_to (codes "bad.com"))
    ≡ ok (target_at (codes "bad.com"), sent_to (codes "bad.com"))
unfolding rewrite_absolute_form str_eq without
rewrites_bad = refl

abbrev refusal : ProxyError
refusal = policy_denied (codes "domain denied: bad.com")

refused : check policy (codes "bad.com") 80 ≡ err refusal
unfolding check domain_matches str_eq strip_prefix to_ascii_lowercase
refused = refl
