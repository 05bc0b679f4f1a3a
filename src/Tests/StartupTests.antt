-- ===== src/Tests/StartupTests.antt =====
-- Inputs for the theorems on the start-up in src/server.rs, and on what the writer of
-- src/http_proxy/cache_pipeline.rs commits.
use http_cache.Errors.{ok}
use http_cache.Cache.Sqlite.Calm.{calm}
use http_cache.Policy.{new}
use http_cache.Config.{default_config}
use http_cache.Cache.Backend.{build_cache, noop_cache, sqlite_cache}
use http_cache.Server.Requests.{AppState, app_state}
use http_cache.Prelude.{refl, none, some, [], ◌∷◌, inl, codes, ◌≡◌, false, List, Str}
use http_cache.Tests.Headers.{json}
use http_cache.Tests.Fixtures.{order, full_disk}
use http_cache.Tests.CacheTests.{request, unlimited, old}
use http_cache.HttpProxy.Committing.{Gap, quiet, Job, commit_files, request_of}
use http_cache.HttpProxy.Committing.Settled.{IsSettled, commit_files-IsSettled}
use http_cache.Cache.World.{World, Row}
use http_cache.Cache.Sqlite.{to_row}
use http_cache.Prelude.{str_eq}
use http_cache.Server.Startup.{removed_all, run_up, clear_cache_dir}
use http_cache.Server.Startup.Ready.{IsReady, run_up-IsReady}

-- The rest of the program fills the table anew.
abbrev refills : List Row → (temp_path : Str) → Gap temp_path
refills rows temp_path = record {
  passes = λ w. record w { rows = rows };
  keeps_temp = λ w. refl;
  keeps_faults = λ w. refl;
}

abbrev pub job : Job
job = record {
  key = request.key;
  method = request.method;
  url = request.url;
  status = 200;
  headers = request.headers;
  created_at = request.created_at;
  expires_at = request.expires_at;
  final_path = codes ".cache/objects/a";
  temp_path = codes ".cache/objects/a.tmp-1";
  while_renaming = quiet (codes ".cache/objects/a.tmp-1");
  while_storing = refills (old ∷ []) (codes ".cache/objects/a.tmp-1");
}

abbrev state : AppState
state = record { config = default_config; policy = new default_config.policy; cache = noop_cache }

starts :
    run_up (λ addr. none) removed_all default_config (calm (old ∷ []) full_disk)
    ≡ (ok state, (clear_cache_dir removed_all (calm (old ∷ []) full_disk)))
unfolding run_up build_cache app_state clear_cache_dir new
starts = refl

run_up-IsReady_example :
    IsReady
      (λ addr. none)
      removed_all
      default_config
      (calm (old ∷ []) full_disk)
      state
      (clear_cache_dir removed_all (calm (old ∷ []) full_disk))
run_up-IsReady_example =
    run_up-IsReady (λ addr. none) removed_all default_config (calm (old ∷ []) full_disk)
      (clear_cache_dir removed_all (calm (old ∷ []) full_disk)) state starts

-- The statement that would write the row fails.
abbrev stuck : World
stuck = record (calm (old ∷ []) full_disk) {
  faults = none ∷ none ∷ none ∷ some (codes "disk I/O error") ∷ [];
}

pub paths_differ : str_eq job.final_path job.temp_path ≡ false
unfolding str_eq
paths_differ = refl

commit_files-IsSettled_example :
    let (r, w) = commit_files json order (sqlite_cache unlimited) job (codes "hello") 5 stuck in
    IsSettled job (codes "hello") (to_row json (request_of job 5)) r stuck w
commit_files-IsSettled_example =
    commit_files-IsSettled json order unlimited job (codes "hello") 5 stuck (inl refl) paths_differ
