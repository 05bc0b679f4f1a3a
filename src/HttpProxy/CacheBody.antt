-- ===== src/HttpProxy/CacheBody.antt =====
-- src/http_proxy/cache_pipeline.rs: `cache_body` whole. The tee and the writer as in CacheWrite, but
-- with the writer's files, and with the cache that it stores to.
pub mod Runs
pub mod Simulated
pub mod Committed
pub mod Cleared
pub mod Served
pub mod Arriving
pub mod Arrives
use http_cache.Prelude.Words.{u64_mod, saturating_add}
use http_cache.HttpProxy.Committing.{Job, with_file, commit_amid}
use http_cache.Cache.Backend.{Cache}
use http_cache.Body.{Bytes}
use http_cache.Cache.Sqlite.{Json, Order}
use http_cache.Errors.{Result, ok, err}
use http_cache.Cache.World.{World, M, succeeds, remove_file, later}
use http_cache.HttpProxy.CacheWrite.{
  Pipeline, Phase, Settings, started, starting, receiving, checking, awaiting, discarded, committed,
}
use http_cache.Prelude.{
  [], ◌∷◌, ◌&&◌, ◌++◌, ◌==◌, ◌+◌, ◌%◌, if◌then◌else◌, none, some, true, false, Str, Bool, length,
  List, not, Option, is_some, ltb, ℕ,
}

-- The two tasks and the world that they share with the rest of the program.
pub record Caching : Type 0 where
  pub pipeline : Pipeline
  pub world : World

-- `tokio::fs::File::create`
unfoldable pub create : Str → M Bool
create path w = (
  ok (succeeds w.faults),
  record w {
    files = if succeeds w.faults then with_file path (some []) w.files else w.files;
    faults = later w.faults;
  },
)

-- `write_all` into the buffer, which may pass on to the file what it holds: `held` is what the file
-- then has, also when that fails.
unfoldable pub write_all : Str → Bytes → M Bool
write_all path held w = (
  ok (succeeds w.faults),
  record w { files = with_file path (some held) w.files; faults = later w.faults },
)

abbrev pub phase_of : Result Bool → Phase
phase_of (ok true) = committed
phase_of (ok false) = discarded
phase_of (err e) = discarded

module _ (json : Json) (order : Order) (cache : Cache) (job : Job) (settings : Settings) where
  open settings use {content_length, max_object_size_bytes, require_content_length}

  -- `let _ = remove_file(&temp_path)`, and the writer returns.
  unfoldable pub remove_temp : Pipeline → World → Caching
  unfolding remove_file
  remove_temp p w = record {
    pipeline = record p { phase = discarded };
    world = (remove_file job.temp_path w).1;
  }

  abbrev pub pass : Pipeline → World → Caching
  pass p w = record { pipeline = p; world = w }

  unfoldable pub open_temp : Pipeline → World → Caching
  unfolding create
  open_temp p w =
      pass (record p { phase = if succeeds w.faults then receiving else discarded })
        (create job.temp_path w).1

  -- One round of the loop.
  unfoldable pub take_chunk : Bytes → Bytes → Pipeline → World → Caching
  unfolding write_all remove_temp
  take_chunk held chunk p w =
      let w' = (write_all job.temp_path held w).1 in
      let size = (p.size + length chunk) % u64_mod in
      if p.abort_flag
      then pass (record p { phase = checking }) w
      else if ltb 0 max_object_size_bytes
          && ltb max_object_size_bytes (saturating_add p.size (length chunk))
      then pass (record p { abort_flag = true; phase = checking }) w
      else if succeeds w.faults
      then pass (record p { size = size; written = p.written ++ chunk }) w'
      else remove_temp (record p { size = size; abort_flag = true }) w'

  abbrev pub receive_chunk : Bytes → List Bytes → Pipeline → World → Caching
  receive_chunk held [] p w = pass (if p.tx then p else record p { phase = checking }) w
  receive_chunk held (chunk ∷ rest) p w = take_chunk held chunk (record p { queue = rest }) w

  -- The tests behind the loop.
  unfoldable pub test_abort : Pipeline → World → Caching
  unfolding remove_temp
  test_abort p w =
      if p.abort_flag
      then remove_temp p w
      else if require_content_length && not (is_some content_length)
      then remove_temp p w
      else pass (record p { phase = awaiting }) w

  -- The test of the size, `flush`, `rename` and `store`, with the rest of the program in between.
  unfoldable pub finish_file : Pipeline → World → Caching
  unfolding remove_temp commit_amid
  finish_file p w =
      let (r, w') = commit_amid json order cache job p.written p.size w in
      if ltb 0 max_object_size_bytes && ltb max_object_size_bytes p.size
      then remove_temp p w
      else pass (record p { phase = phase_of r }) w'

  abbrev pub settle : Bool → Option ℕ → Pipeline → World → Caching
  settle clean (some expected) p w = if p.size == expected then finish_file p w else remove_temp p w
  settle clean none p w = if clean then finish_file p w else remove_temp p w

  abbrev pub await_end : Option Bool → Pipeline → World → Caching
  await_end (some clean) p w = settle clean content_length p w
  await_end none p w = if p.completion_tx then pass p w else settle false content_length p w

  abbrev pub turn_at : Phase → Bytes → Pipeline → World → Caching
  turn_at starting held p w = open_temp p w
  turn_at receiving held p w = receive_chunk held p.queue p w
  turn_at checking held p w = test_abort p w
  turn_at awaiting held p w = await_end p.completion p w
  turn_at discarded held p w = pass p w
  turn_at committed held p w = pass p w

  -- The writer as far as its next wait.
  unfoldable pub turn : Bytes → Pipeline → World → Caching
  unfolding open_temp take_chunk test_abort finish_file
  turn held p w = turn_at p.phase held p w
