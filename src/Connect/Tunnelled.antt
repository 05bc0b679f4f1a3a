-- ===== src/Connect/Tunnelled.antt =====
-- Which tunnels `handle_connect` of src/connect_tunnel.rs opens.
use http_cache.Prelude.{
  refl, none, some, inl, inr, Str, ℕ, List, Option, ◌≡◌, to_ascii_lowercase, ap, ◌↔◌,
}
use http_cache.Network.Permitted.{TriesPermitted}
use http_cache.Policy.Decisions.{Permits, check-Permits}
use http_cache.Connect.{Tunnel, handle_connect, open_tunnel, opened, with_port, connect_authority}
use http_cache.HttpProxy.Handler.{format_addr}
use http_cache.HttpProxy.Upstream.{UriLib}
use http_cache.Network.{Dialled, connected, refused, elapsed, connect, stream_of}
use http_cache.Policy.{PolicyEngine, check}
use http_cache.Errors.{Result, ok, err}

module _ (policy : PolicyEngine) (dial : Str → Dialled) where
  -- The tunnel that a host and a port are due: the policy permits them, and they can be reached.
  abbrev pub Reaches : Str → ℕ → Tunnel → Type 0
  Reaches host port t =
      (host ≡ t.tunnel_host)
      × (port ≡ t.tunnel_port)
      × Permits policy (to_ascii_lowercase host) port
      × (dial (format_addr host port) ≡ connected)

  opened_ok :
      (host : Str) (port : ℕ) (d : Dialled) (tried : List Str) (t : Tunnel)
      → (opened host port (stream_of d, tried)).0 ≡ ok t
      → (host ≡ t.tunnel_host) × (port ≡ t.tunnel_port) × (d ≡ connected)
  opened_ok host port connected tried t h =
      let e : record { tunnel_host = host; tunnel_port = port } ≡ t = cc in
      (ap (λ t. t.tunnel_host) e, ap (λ t. t.tunnel_port) e, refl)
  opened_ok host port (refused m) tried t h = cc
  opened_ok host port elapsed tried t h = cc

  opened_tried :
      (host : Str) (port : ℕ) (r : Result (Unit {0})) (tried : List Str)
      → (opened host port (r, tried)).1 ≡ tried
  opened_tried host port (ok u) tried = refl
  opened_tried host port (err e) tried = refl

  open_tunnel-Reaches :
      (host : Str) (port : ℕ) (c : Result (Unit {0})) (tried : List Str) (t : Tunnel)
      → check policy host port ≡ c
      → (open_tunnel policy dial host port c tried).0 ≡ ok t
      → Reaches host port t
  unfolding open_tunnel connect
  open_tunnel-Reaches host port (err e) tried t f h = cc
  open_tunnel-Reaches host port (ok u) tried t f h =
      let (a, b, c) = opened_ok host port (dial (format_addr host port)) _ t h in
      (a, b, (check-Permits policy host port).0 f, c)

  open_tunnel_complete :
      (host : Str) (port : ℕ) (tried : List Str) (t : Tunnel)
      → Reaches host port t
      → (open_tunnel policy dial host port (check policy host port) tried).0 ≡ ok t
  unfolding open_tunnel connect
  open_tunnel_complete host port tried t (a, b, permits, c) =
      rw ((check-Permits policy host port).1 permits, c, a, b)

  open_tunnel-TriesPermitted :
      (host : Str) (port : ℕ) (c : Result (Unit {0})) (tried : List Str)
      → check policy host port ≡ c
      → TriesPermitted policy tried (open_tunnel policy dial host port c tried).1
  unfolding open_tunnel connect
  open_tunnel-TriesPermitted host port (err e) tried f = inl refl
  open_tunnel-TriesPermitted host port (ok u) tried f =
      inr (host, port, (check-Permits policy host port).0 f, opened_tried host port _ _)

  module _ (uris : UriLib) where
    -- A URI asks for a tunnel by its authority, whose port must be written out.
    abbrev pub Opens : uris.Uri → Tunnel → Type 0
    Opens uri t =
        (a : uris.Authority) × (port : ℕ) × (uris.authority uri ≡ some a)
        × (uris.port_u16 a ≡ some port)
        × Reaches (uris.authority_host a) port t

    abbrev pub IsTunnelled : uris.Uri → List Str → Result Tunnel × List Str → Type 0
    IsTunnelled uri before r =
        ((t : Tunnel) → (r.0 ≡ ok t) ↔ Opens uri t) × TriesPermitted policy before r.1

    with_port-Opens :
        (a : uris.Authority) (o : Option ℕ) (tried : List Str) (t : Tunnel)
        → uris.port_u16 a ≡ o
        → (with_port policy dial (uris.authority_host a) o tried).0 ≡ ok t
        → (port : ℕ) × (o ≡ some port) × Reaches (uris.authority_host a) port t
    with_port-Opens a none tried t e h = cc
    with_port-Opens a (some port) tried t e h =
        (port, refl, open_tunnel-Reaches _ port _ tried t refl h)

    authority-Opens :
        (uri : uris.Uri) (o : Option uris.Authority) (tried : List Str) (t : Tunnel)
        → uris.authority uri ≡ o
        → (connect_authority policy dial uris o tried).0 ≡ ok t
        → Opens uri t
    authority-Opens uri none tried t e h = cc
    authority-Opens uri (some a) tried t e h =
        let (port, f, reaches) = with_port-Opens a _ tried t refl h in (a, port, e, f, reaches)

    with_port-TriesPermitted :
        (host : Str) (o : Option ℕ) (tried : List Str)
        → TriesPermitted policy tried (with_port policy dial host o tried).1
    with_port-TriesPermitted host none tried = inl refl
    with_port-TriesPermitted host (some port) tried =
        open_tunnel-TriesPermitted host port _ tried refl

    authority-TriesPermitted :
        (o : Option uris.Authority) (tried : List Str)
        → TriesPermitted policy tried (connect_authority policy dial uris o tried).1
    authority-TriesPermitted none tried = inl refl
    authority-TriesPermitted (some a) tried = with_port-TriesPermitted _ (uris.port_u16 a) tried

    -- A CONNECT request gets a tunnel exactly if its URI has an authority that writes out its port,
    -- the policy permits that host and port, and the network connects to them; the tunnel is then
    -- theirs. Whatever comes of it, at most one address is tried, and only one that the policy
    -- permits.
    pub handle_connect-IsTunnelled :
        (uri : uris.Uri) (tried : List Str)
        → IsTunnelled uri tried (handle_connect policy dial uris uri tried)
    unfolding handle_connect
    handle_connect-IsTunnelled uri tried = (
      λ t. (
        authority-Opens uri _ tried t refl,
        λ (a, port, e, f, reaches). rw (e, f) (open_tunnel_complete _ port tried t reaches),
      ),
      authority-TriesPermitted (uris.authority uri) tried,
    )
