-- ===== src/Server/Startup.antt =====
-- src/server.rs: `run` as far as the accept loop: `prepare_runtime_dirs`, the address that is bound,
-- the cache and the state that requests share.
pub mod Ready
use http_cache.Errors.{Result, ok, err, io}
use http_cache.Server.Requests.{app_state, AppState}
use http_cache.Body.{Bytes}
use http_cache.Cache.Backend.{build_cache}
use http_cache.Config.{dev, prod, EnvMode, Config}
use http_cache.Cache.World.{World, M, return}
use http_cache.Prelude.{
  none, some, [], Str, List, Option, Bool, if◌then◌else◌, is_some, any, strip_prefix, str_eq, codes,
}
use http_cache.HttpProxy.Handler.{format_addr}
use http_cache.Cache.World.{◌>>=◌}

-- What `.cache` turned out to be: not there, removed, or removed in part, by the paths and the
-- database that are gone.
pub data Clearing : Type 0 where
  not_there : Clearing
  removed_all : Clearing
  removed_some : Str → List Str → Bool → Clearing

-- `starts_with(".cache/")`: the database and the objects lie under it.
abbrev pub in_cache_dir : Str → Bool
in_cache_dir path = is_some (strip_prefix (codes ".cache/") path)

abbrev pub without_all : List Str → (Str → Option Bytes) → Str → Option Bytes
without_all gone files path = if any (λ p. str_eq p path) gone then none else files path

abbrev pub without_dir : (Str → Option Bytes) → Str → Option Bytes
without_dir files path = if in_cache_dir path then none else files path

-- `remove_dir_all`, whose failure is only logged.
unfoldable pub clear_cache_dir : Clearing → World → World
clear_cache_dir not_there w = w
clear_cache_dir removed_all w = record w { rows = []; files = without_dir w.files }
clear_cache_dir (removed_some message gone db_gone) w = record w {
  rows = if db_gone then [] else w.rows;
  files = without_all gone w.files;
}

unfoldable pub prepare_runtime_dirs : EnvMode → Clearing → World → World
unfolding clear_cache_dir
prepare_runtime_dirs dev clearing w = clear_cache_dir clearing w
prepare_runtime_dirs prod clearing w = w

-- `format!("{}:{}", ..)`
unfoldable pub listen_addr : Config → Str
listen_addr config = format_addr config.listen.host config.listen.port

-- `serve` as far as `serve_with_state`.
unfoldable pub serve_state : Config → M AppState
unfolding build_cache app_state
serve_state config = do cache ← build_cache config.caching; return (app_state config cache)

-- `TcpListener::bind` of an address: an error or none.
abbrev pub bound : Option Str → Result (Unit {0})
bound none = ok tt
bound (some message) = err (io message)

abbrev pub serve_bound : Config → Result (Unit {0}) → M AppState
serve_bound config (err e) w = (err e, w)
serve_bound config (ok u) w = serve_state config w

unfoldable pub run_up : (Str → Option Str) → Clearing → Config → M AppState
unfolding prepare_runtime_dirs listen_addr serve_state
run_up bind clearing config w =
    serve_bound config (bound (bind (listen_addr config)))
      (prepare_runtime_dirs config.env.mode clearing w)
