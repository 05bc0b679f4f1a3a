-- ===== src/HttpProxy/Committing.antt =====
-- src/http_proxy/cache_pipeline.rs: the names and the files of `cache_body`, and how its writer
-- commits: `flush`, `rename`, `store`, and what it removes when one of them fails.
pub mod Replayed
pub mod Steps
pub mod Settled
pub mod Placed
pub mod Cleared
use http_cache.Prelude.Int.{ℤ}
use http_cache.Errors.{Result, ok, err}
use http_cache.Body.{Bytes}
use http_cache.Cache.{CacheStoreRequest}
use http_cache.Cache.Sqlite.{Json, Order}
use http_cache.Prelude.{
  ◌≡◌, refl, none, some, true, false, Str, ℕ, List, ◌++◌, Option, Bool, codes, if◌then◌else◌,
  str_eq,
}
use http_cache.Cache.Backend
use http_cache.Cache.Backend.{Cache, cache_objects_dir, join_path}
use http_cache.Cache.World.{World, M, ◌>>=◌, ◌>>◌, return, remove_file, later, succeeds}

-- What the rest of the program does while the writer waits for a call: anything, but to the temporary
-- file, whose name is the writer's own. Which of the writer's calls fail is said by the faults.
pub record Gap (temp_path : Str) : Type 0 where
  pub passes : World → World
  pub keeps_temp : (w : World) → (passes w).files temp_path ≡ w.files temp_path
  pub keeps_faults : (w : World) → (passes w).faults ≡ w.faults

abbrev pub quiet : (temp_path : Str) → Gap temp_path
quiet temp_path = record { passes = λ w. w; keeps_temp = λ w. refl; keeps_faults = λ w. refl }

-- The arguments of `cache_body` that the writer stores, and the two paths; and what comes between the
-- calls of its commit.
pub record Job : Type 0 where
  pub key : Str
  pub method : Str
  pub url : Str
  pub status : ℕ
  pub headers : List (Str × Str)
  pub created_at : ℤ
  pub expires_at : ℤ
  pub final_path : Str
  pub temp_path : Str
  pub while_renaming : Gap temp_path
  pub while_storing : Gap temp_path

-- `objects_dir.join(hash)` and `objects_dir.join(format!("{}.tmp-{}", hash, uuid))`. The digest in
-- hexadecimal and the identifier are other libraries' work.
unfoldable pub final_path_of : (Str → Str) → Str → Str → Str
unfolding cache_objects_dir
final_path_of hash_key dir key = join_path (cache_objects_dir dir) (hash_key key)

unfoldable pub temp_path_of : (Str → Str) → Str → Str → Str → Str
unfolding cache_objects_dir
temp_path_of hash_key dir key uuid =
    join_path (cache_objects_dir dir) (hash_key key ++ (codes ".tmp-" ++ uuid))

abbrev pub request_of : Job → ℕ → CacheStoreRequest
request_of job size = record {
  key = job.key;
  method = job.method;
  url = job.url;
  status = job.status;
  headers = job.headers;
  body_path = some job.final_path;
  body_size = size;
  created_at = job.created_at;
  expires_at = job.expires_at;
}

abbrev pub with_file : Str → Option Bytes → (Str → Option Bytes) → Str → Option Bytes
with_file path body files other = if str_eq path other then body else files other

-- `writer.flush()`: on success the temporary file holds all that was written.
unfoldable pub flush : Str → Bytes → M Bool
flush temp_path written w = (
  ok (succeeds w.faults),
  record w {
    files = if succeeds w.faults then with_file temp_path (some written) w.files else w.files;
    faults = later w.faults;
  },
)

-- `rename`, which replaces what the new path held.
unfoldable pub rename : Str → Str → M Bool
rename temp_path final_path w = (
  ok (succeeds w.faults),
  record w {
    files =
        if succeeds w.faults
        then with_file final_path (w.files temp_path) (with_file temp_path none w.files)
        else w.files;
    faults = later w.faults;
  },
)

-- `let _ = remove_file(path)`, and the writer returns.
unfoldable pub give_up : Str → M Bool
unfolding remove_file
give_up path = do remove_file path; return false

abbrev pub after_store : Str → Result (Unit {0}) × World → Result Bool × World
after_store final_path (ok u, w) = (ok true, w)
after_store final_path (err e, w) = give_up final_path w

module _ (json : Json) (order : Order) (cache : Cache) (job : Job) where
  unfoldable pub store_job : ℕ → M Bool
  unfolding Backend.store give_up
  store_job size w =
      after_store job.final_path (Backend.store json order cache (request_of job size) w)

  -- From the flush to the end, for `size` bytes, with nothing in between: whether the response was
  -- committed.
  unfoldable pub commit_files : Bytes → ℕ → M Bool
  unfolding flush rename store_job
  commit_files written size = do
    flushed ← flush job.temp_path written
    (if flushed
        then (do
          renamed ← rename job.temp_path job.final_path
          (if renamed then store_job size else give_up job.temp_path))
        else give_up job.temp_path)

  abbrev pub let_pass : Gap job.temp_path → M (Unit {0})
  let_pass gap w = (ok tt, gap.passes w)

  -- The same, with the rest of the program between the three calls.
  unfoldable pub commit_amid : Bytes → ℕ → M Bool
  unfolding flush rename store_job
  commit_amid written size = do
    flushed ← flush job.temp_path written
    (if flushed
        then (do
          let_pass job.while_renaming
          renamed ← rename job.temp_path job.final_path
          (if renamed
              then (do let_pass job.while_storing; store_job size)
              else give_up job.temp_path))
        else give_up job.temp_path)
