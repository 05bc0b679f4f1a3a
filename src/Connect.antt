-- ===== src/Connect.antt =====
-- src/connect_tunnel.rs: `handle_connect`, over the interface of hyper's `Uri`.
pub mod Tunnelled
use http_cache.Errors.{Result, err, ok}
use http_cache.Network.{Dialled, connect}
use http_cache.Policy.{PolicyEngine, check}
use http_cache.Prelude.{none, some, Str, ℕ, Option, List, codes}
use http_cache.HttpProxy.Upstream.{bad_request_of, UriLib}
use http_cache.HttpProxy.Handler.{format_addr}

-- The 200 response, and the task that was spawned for the connection.
pub record Tunnel : Type 0 where
  pub tunnel_host : Str
  pub tunnel_port : ℕ

-- What the task waits for: the upgrade of the client's connection, and then
-- `timeout(idle_timeout, copy_bidirectional(..))`.
pub data Copied : Type 0 where
  copied : Copied
  copy_failed : Str → Copied
  idled : Copied

pub data Upgrade : Type 0 where
  upgraded : Copied → Upgrade
  not_upgraded : Str → Upgrade

-- What the task logs at its end.
pub data TunnelEnd : Type 0 where
  tunnel_closed : TunnelEnd
  tunnel_error : Str → TunnelEnd
  tunnel_idle_timeout : TunnelEnd
  upgrade_failed : Str → TunnelEnd

unfoldable pub run_tunnel : Upgrade → TunnelEnd
run_tunnel (upgraded copied) = tunnel_closed
run_tunnel (upgraded (copy_failed message)) = tunnel_error message
run_tunnel (upgraded idled) = tunnel_idle_timeout
run_tunnel (not_upgraded message) = upgrade_failed message

-- `?` on a result whose error stops the handler with the addresses tried by then.
abbrev pub opened : Str → ℕ → Result (Unit {0}) × List Str → Result Tunnel × List Str
opened host port (err e, tried) = (err e, tried)
opened host port (ok u, tried) = (ok (record { tunnel_host = host; tunnel_port = port }), tried)

module _ (policy : PolicyEngine) (dial : Str → Dialled) where
  unfoldable pub open_tunnel : Str → ℕ → Result (Unit {0}) → List Str → Result Tunnel × List Str
  unfolding connect
  open_tunnel host port (err e) tried = (err e, tried)
  open_tunnel host port (ok u) tried = opened host port (connect dial (format_addr host port) tried)

  abbrev pub with_port : Str → Option ℕ → List Str → Result Tunnel × List Str
  with_port host none tried = (bad_request_of (codes "missing port"), tried)
  with_port host (some port) tried = open_tunnel host port (check policy host port) tried

  module _ (uris : UriLib) where
    abbrev pub connect_authority : Option uris.Authority → List Str → Result Tunnel × List Str
    connect_authority none tried = (bad_request_of (codes "missing authority"), tried)
    connect_authority (some a) tried = with_port (uris.authority_host a) (uris.port_u16 a) tried

    unfoldable pub handle_connect : uris.Uri → List Str → Result Tunnel × List Str
    unfolding open_tunnel check
    handle_connect uri tried = connect_authority (uris.authority uri) tried
