-- ===== src/HttpProxy/Upstream/Rewritten.antt =====
-- What `rewrite_absolute_form` of src/http_proxy/upstream.rs makes of a request.
use http_cache.Errors.{ok, Result, ProxyError, err}
use http_cache.HttpProxy.Expiry.{text_of}
use http_cache.HttpProxy.Upstream.{
  UriLib, Request, rewrite_absolute_form, UpstreamTarget, with_scheme, target_of, set_host, set_uri,
  with_authority,
}
use http_cache.Headers.{HeaderLib}
use http_cache.Prelude.{
  if◌then◌else◌, true, false, Bool, refl, none, some, Str, Option, ◌≡◌, codes, subst, ◌≢◌, str_eq,
  ap, str_eq_sound, true, false, Bool,
}
use mathlib.Core.Option.{get_or}

passed :
    {A : Type 0} (b : Bool) (x : Result A) (e : ProxyError) (r : A)
    → (if b then x else err e) ≡ ok r
    → (b ≡ true) × (x ≡ ok r)
passed true x e r h = (refl, h)
passed false x e r h = cc

module _ (lib : HeaderLib) (uris : UriLib) where
  open uris use {
    Authority, authority_host, authority_str, port_u16, origin_form, path_and_query, scheme,
    authority,
  }

  -- The request that goes upstream, and where to.
  pub record IsRewritten (req : Request lib uris) (target : UpstreamTarget)
      (sent : Request lib uris) : Type 0 where
    pub is_http : scheme req.uri ≡ some (codes "http")
    pub target_is :
        (a : Authority) × (authority req.uri ≡ some a)
        × (target.target_host ≡ authority_host a)
        × (target.target_port ≡ get_or (port_u16 a) 80)
        × (text_of lib.to_str (lib.get sent.headers lib.host) ≡ some (authority_str a))
    pub origin : scheme sent.uri ≡ none
    pub path : path_and_query sent.uri ≡ some (get_or (path_and_query req.uri) (codes "/"))
    pub same_method : sent.method ≡ req.method
    pub other_headers :
        (name : lib.HeaderName)
        → name ≢ lib.host
        → lib.get sent.headers name ≡ lib.get req.headers name

  abbrev asked_path : Request lib uris → Str
  asked_path req = get_or (path_and_query req.uri) (codes "/")

  -- What a successful call went through.
  abbrev Went : Request lib uris → UpstreamTarget × Request lib uris → Type 0
  Went req r =
      (a : Authority) × (uri : uris.Uri) × (value : lib.HeaderValue) × (authority req.uri ≡ some a)
      × (origin_form (asked_path req) ≡ some uri)
      × (lib.from_str (authority_str a) ≡ some value)
      × (◌≡◌ {A = UpstreamTarget × Request lib uris}
          (
            target_of lib uris a,
            record req { uri = uri; headers = lib.insert lib.host value req.headers },
          )
          r)

  set_host-Went :
      (req : Request lib uris) (a : Authority) (uri : uris.Uri) (o : Option lib.HeaderValue)
      (r : UpstreamTarget × Request lib uris)
      → authority req.uri ≡ some a
      → origin_form (asked_path req) ≡ some uri
      → lib.from_str (authority_str a) ≡ o
      → set_host lib uris req a uri o ≡ ok r
      → Went req r
  set_host-Went req a uri none r e f g h = cc
  set_host-Went req a uri (some value) r e f g h = (a, uri, value, e, f, g, cc)

  set_uri-Went :
      (req : Request lib uris) (a : Authority) (o : Option uris.Uri)
      (r : UpstreamTarget × Request lib uris)
      → authority req.uri ≡ some a
      → origin_form (asked_path req) ≡ o
      → set_uri lib uris req a o ≡ ok r
      → Went req r
  set_uri-Went req a none r e f h = cc
  set_uri-Went req a (some uri) r e f h =
      set_host-Went req a uri (lib.from_str (authority_str a)) r e f refl h

  with_authority-Went :
      (req : Request lib uris) (o : Option Authority) (r : UpstreamTarget × Request lib uris)
      → authority req.uri ≡ o
      → with_authority lib uris req o ≡ ok r
      → Went req r
  with_authority-Went req none r e h = cc
  with_authority-Went req (some a) r e h =
      set_uri-Went req a (origin_form (asked_path req)) r e refl h

  with_scheme-Went :
      (req : Request lib uris) (o : Option Str) (r : UpstreamTarget × Request lib uris)
      → with_scheme lib uris req o ≡ ok r
      → (o ≡ some (codes "http")) × Went req r
  with_scheme-Went req none r h = cc
  with_scheme-Went req (some s) r h =
      let (e, f) = passed (str_eq s (codes "http")) _ _ r h in
      (
        ap some (str_eq_sound s (codes "http") e),
        with_authority-Went req (authority req.uri) r refl f,
      )

  Went-IsRewritten :
      (req : Request lib uris) (r : UpstreamTarget × Request lib uris)
      → scheme req.uri ≡ some (codes "http")
      → Went req r
      → IsRewritten req r.0 r.1
  Went-IsRewritten req r http (a, uri, value, e, f, g, h) =
      subst (λ r. IsRewritten req r.0 r.1) h
        (record {
          is_http = http;
          target_is = (
            a,
            e,
            refl,
            refl,
            rw (lib.get-insert_same req.headers lib.host value) (lib.to_str-from_str _ value g),
          );
          origin = uris.scheme-origin_form _ uri f;
          path = uris.path_and_query-origin_form _ uri f;
          same_method = refl;
          other_headers =
              λ name differs. lib.get-insert_other req.headers lib.host name value differs;
        })

  -- `rewrite_absolute_form` accepts only URIs of the scheme http with an authority. The target is
  -- that authority's host and port, 80 if it names none; the request keeps its method and its other
  -- headers, its Host header becomes the authority, and its URI the path and query alone, / if there
  -- is none.
  pub rewrite_absolute_form-IsRewritten :
      (req : Request lib uris) (target : UpstreamTarget) (sent : Request lib uris)
      → rewrite_absolute_form lib uris req ≡ ok (target, sent)
      → IsRewritten req target sent
  unfolding rewrite_absolute_form
  rewrite_absolute_form-IsRewritten req target sent h =
      let (http, went) = with_scheme-Went req (scheme req.uri) (target, sent) h in
      Went-IsRewritten req (target, sent) http went
