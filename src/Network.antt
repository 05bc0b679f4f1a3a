-- ===== src/Network.antt =====
-- The connections that src/connect_tunnel.rs and src/http_proxy/mod.rs open. What the network
-- answers is a parameter; the addresses that were tried are kept, the latest first.
pub mod Permitted
use http_cache.Prelude.{◌∷◌, Str, List}
use http_cache.Errors.{Result, ok, err, io, timeout}

-- The outcome of `timeout(connect_timeout, TcpStream::connect(addr)).await`.
pub data Dialled : Type 0 where
  connected : Dialled
  refused : Str → Dialled
  elapsed : Dialled

-- `.map_err(|_| ProxyError::Timeout)??`
abbrev pub stream_of : Dialled → Result (Unit {0})
stream_of connected = ok tt
stream_of (refused message) = err (io message)
stream_of elapsed = err timeout

unfoldable pub connect : (Str → Dialled) → Str → List Str → Result (Unit {0}) × List Str
connect dial addr tried = (stream_of (dial addr), addr ∷ tried)
