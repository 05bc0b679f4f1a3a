-- ===== src/Server/Startup/Ready.antt =====
-- What `run` of src/server.rs has brought about when the accept loop begins.
use http_cache.Prelude.TextLaws.{strip_prefix-append}
use http_cache.Errors.{ok, Result, err}
use http_cache.Server.Requests.{AppState, app_state}
use http_cache.Cache.Backend.{build_cache, is_enabled, Cache}
use http_cache.Cache.World.{World, sql, attempt, return, M}
use http_cache.Prelude.{
  none, [], Str, ◌≡◌, Option, codes, ◌++◌, arith, refl, some, strip_prefix, ap, ◌∙◌, sym,
}
use http_cache.Policy
use http_cache.Prelude.Decimal.{to_decimal}
use http_cache.Cache.World.{◌>>=◌}
use http_cache.Config.{dev, prod, EnvMode, Config, CacheConfig}
use http_cache.Cache.Backend.Histories.{build_cache-rows}
use http_cache.Server.Startup.{
  Clearing, not_there, removed_all, removed_some, clear_cache_dir, prepare_runtime_dirs,
  listen_addr, serve_state, bound, serve_bound, run_up,
}

-- The rows and the files that the cache starts from.
abbrev pub StartsFrom : EnvMode → Clearing → World → World → Type 0
StartsFrom dev removed_all w w' =
    (w'.rows ≡ [])
    × ((path : Str) (rest : Str) → path ≡ codes ".cache/" ++ rest → w'.files path ≡ none)
StartsFrom dev (removed_some message gone db_gone) w w' = Unit
StartsFrom _ _ w w' = (w'.rows ≡ w.rows) × (w'.files ≡ w.files)

abbrev pub IsReady : (Str → Option Str) → Clearing → Config → World → AppState → World → Type 0
IsReady bind clearing config w state w' =
    (bind (config.listen.host ++ (codes ":" ++ to_decimal config.listen.port)) ≡ none)
    × (state.config ≡ config)
    × (state.policy ≡ Policy.new config.policy)
    × (is_enabled state.cache ≡ config.caching.enabled)
    × StartsFrom config.env.mode clearing w w'

build_cache-files : (config : CacheConfig) (w : World) → (build_cache config w).1.files ≡ w.files
unfolding build_cache sql attempt
build_cache-files config w = ground arith

built-is_enabled :
    (config : CacheConfig) (w : World) (cache : Cache)
    → (build_cache config w).0 ≡ ok cache
    → is_enabled cache ≡ config.enabled
unfolding build_cache sql attempt is_enabled
built-is_enabled config w cache h = ground arith

same_start :
    (mode : EnvMode) (clearing : Clearing) (w v : World)
    → v.rows ≡ (prepare_runtime_dirs mode clearing w).rows
    → v.files ≡ (prepare_runtime_dirs mode clearing w).files
    → StartsFrom mode clearing w v
unfolding prepare_runtime_dirs clear_cache_dir
same_start prod clearing w v r f = (r, f)
same_start dev not_there w v r f = (r, f)
same_start dev (removed_some m gone db_gone) w v r f = tt
same_start dev removed_all w v r f = (
  r,
  λ path rest e.
      let s : strip_prefix (codes ".cache/") path ≡ some rest =
        ap (strip_prefix (codes ".cache/")) e ∙ strip_prefix-append (codes ".cache/") rest in
      rw (f, s) refl,
)

-- The last step of a successful chain.
returned :
    {A B : Type 0} (m : M A) (f : A → B) (w : World) (b : B) (w' : World)
    → ◌>>=◌ m (λ a. return (f a)) w ≡ (ok b, w')
    → (a : A) × ((m w).0 ≡ ok a) × (f a ≡ b) × ((m w).1 ≡ w')
returned {A} {B} m f w b w' h = go (m w).0 (m w).1 h
  where
    go :
        (r : Result A) (v : World)
        → (let next : Result B × World = elim r [ ok a ↦ (ok (f a), v) | err e ↦ (err e, v) ] in
            next)
          ≡ (ok b, w')
        → (a : A) × (r ≡ ok a) × (f a ≡ b) × (v ≡ w')
    go (ok a) v h = (a, refl, cc, cc)
    go (err e) v h = cc

bound-none : (o : Option Str) → bound o ≡ ok tt → o ≡ none
bound-none none h = refl
bound-none (some m) h = cc

served :
    (config : Config) (r : Result (Unit {0})) (w w' : World) (state : AppState)
    → serve_bound config r w ≡ (ok state, w')
    → (r ≡ ok tt)
      × (state.config ≡ config)
      × (state.policy ≡ Policy.new config.policy)
      × (is_enabled state.cache ≡ config.caching.enabled)
      × (w'.rows ≡ w.rows)
      × (w'.files ≡ w.files)
unfolding serve_state app_state
served config (err e) w w' state h = cc
served config (ok u) w w' state h =
    let (cache, built, e, after) =
      returned (build_cache config.caching) (app_state config) w state w' h in
    (
      refl,
      ap (λ (s : AppState). s.config) (sym e),
      ap (λ (s : AppState). s.policy) (sym e),
      ap (λ (s : AppState). is_enabled s.cache) (sym e)
          ∙ built-is_enabled config.caching w cache built,
      rw⁻¹ after (build_cache-rows config.caching w),
      rw⁻¹ after (build_cache-files config.caching w),
    )

-- When the accept loop begins, the configured host with the configured port is bound, and the state that requests share
-- has the configuration, the policy made of it, and a cache that is on exactly if it is configured
-- so, whichever other calls failed. In dev mode the cache starts without a row and without a file
-- under .cache, if that directory could be removed; in prod mode, or if it was not there, from what
-- there was.
pub run_up-IsReady :
    (bind : Str → Option Str) (clearing : Clearing) (config : Config) (w w' : World)
    (state : AppState)
    → run_up bind clearing config w ≡ (ok state, w')
    → IsReady bind clearing config w state w'
unfolding run_up listen_addr
run_up-IsReady bind clearing config w w' state h =
    let (is_bound, c, p, on, rows, files) =
      served config (bound (bind (listen_addr config)))
        (prepare_runtime_dirs config.env.mode clearing w) w' state h in
    (bound-none _ is_bound, c, p, on, same_start config.env.mode clearing w w' rows files)
