-- ===== src/HttpProxy/Upstream.antt =====
-- src/http_proxy/upstream.rs: `rewrite_absolute_form`, over an interface of hyper's `Uri`.
pub mod Rewritten
use mathlib.Core.Option.{get_or}
use http_cache.Errors.{Result, err, bad_request, ok}
use http_cache.Headers.{HeaderLib}
use http_cache.Prelude.{none, some, Str, Option, ℕ, ◌≡◌, codes, if◌then◌else◌, str_eq, ◌++◌}

-- hyper's Uri and Authority, by what the program reads of them. `origin_form` is a Uri built from a
-- path and query alone.
pub record UriLib : Type 1 where
  pub Uri : Type 0
  pub Authority : Type 0
  pub to_string : Uri → Str
  pub scheme : Uri → Option Str
  pub authority : Uri → Option Authority
  pub path_and_query : Uri → Option Str
  pub authority_host : Authority → Str
  pub port_u16 : Authority → Option ℕ
  pub authority_str : Authority → Str
  pub origin_form : Str → Option Uri
  pub path_and_query-origin_form :
      (path : Str) (uri : Uri) → origin_form path ≡ some uri → path_and_query uri ≡ some path
  pub scheme-origin_form :
      (path : Str) (uri : Uri) → origin_form path ≡ some uri → scheme uri ≡ none

pub record UpstreamTarget : Type 0 where
  pub target_host : Str
  pub target_port : ℕ  -- u16
  pub target_authority : Str

abbrev pub bad_request_of : {A : Type 0} → Str → Result A
bad_request_of message = err (bad_request message)

module _ (lib : HeaderLib) (uris : UriLib) where
  -- A request without its body.
  pub record Request : Type 0 where
    pub method : Str
    pub uri : uris.Uri
    pub headers : lib.HeaderMap

  open uris use {
    Authority, Uri, authority_host, authority_str, port_u16, origin_form, path_and_query, scheme,
    authority,
  }

  abbrev pub target_of : Authority → UpstreamTarget
  target_of a = record {
    target_host = authority_host a;
    target_port = get_or (port_u16 a) 80;
    target_authority = authority_str a;
  }

  abbrev pub set_host :
      Request → Authority → Uri → Option lib.HeaderValue → Result (UpstreamTarget × Request)
  set_host req a uri none = bad_request_of (codes "invalid host")
  set_host req a uri (some value) =
      ok (target_of a, record req { uri = uri; headers = lib.insert lib.host value req.headers })

  abbrev pub set_uri : Request → Authority → Option Uri → Result (UpstreamTarget × Request)
  set_uri req a none = bad_request_of (codes "invalid path")
  set_uri req a (some uri) = set_host req a uri (lib.from_str (authority_str a))

  abbrev pub with_authority : Request → Option Authority → Result (UpstreamTarget × Request)
  with_authority req none = bad_request_of (codes "missing authority")
  with_authority req (some a) =
      set_uri req a (origin_form (get_or (path_and_query req.uri) (codes "/")))

  abbrev pub with_scheme : Request → Option Str → Result (UpstreamTarget × Request)
  with_scheme req none = bad_request_of (codes "missing scheme")
  with_scheme req (some s) =
      if str_eq s (codes "http")
      then with_authority req (authority req.uri)
      else bad_request_of (codes "unsupported scheme: " ++ s)

  unfoldable pub rewrite_absolute_form : Request → Result (UpstreamTarget × Request)
  rewrite_absolute_form req = with_scheme req (scheme req.uri)
