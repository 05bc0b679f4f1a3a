-- ===== src/HttpProxy/Reuse.antt =====
-- src/http_proxy/mod.rs: what `handle_http` hands to `cache_body` of cache_pipeline.rs, and how it
-- answers the next request for the same URL.
pub mod Answered
pub mod Teed
pub mod Chain
pub mod Caches
use http_cache.Prelude.Int.{ℤ}
use http_cache.Cache.Backend.{cache_objects_dir}
use http_cache.Prelude.{
  ℕ, ◌++◌, ◌∷◌, ◌≡◌, false, inl, inr, Bool-cases, arith, ap, length, length-append, Str, codes,
  str_eq, str_eq_sound, List,
}
use http_cache.HttpProxy.Committing.{Gap, Job, final_path_of, temp_path_of}
use http_cache.HttpProxy.Storing.{Exchange}

-- What the rest of the program does between the calls of a commit, for any temporary file.
abbrev pub Meanwhile : Type 0
Meanwhile = (temp_path : Str) → Gap temp_path

-- The job of the writer: `hash_key`, the cache's directory, the fresh identifier, and what comes
-- before the rename and before the store of its commit, are arguments.
abbrev pub job_of :
    (Str → Str) → Str → Str → Meanwhile → Meanwhile → Exchange → Str → List (Str × Str) → ℤ → Job
job_of hash_key dir uuid renaming storing exchange key headers expires_at = record {
  key = key;
  method = exchange.method;
  url = exchange.url;
  status = exchange.status;
  headers = headers;
  created_at = exchange.created_at;
  expires_at = expires_at;
  final_path = final_path_of hash_key dir key;
  temp_path = temp_path_of hash_key dir key uuid;
  while_renaming = renaming (temp_path_of hash_key dir key uuid);
  while_storing = storing (temp_path_of hash_key dir key uuid);
}

longer_differs :
    (base name more : Str) (c d : ℕ)
    → str_eq (base ++ (c ∷ name)) (base ++ (c ∷ (name ++ (d ∷ more)))) ≡ false
longer_differs base name more c d =
    let short = base ++ (c ∷ name) in
    let long = base ++ (c ∷ (name ++ (d ∷ more))) in
    elim (Bool-cases (str_eq short long)) [
      | inl same ↦
          let e = ap length (str_eq_sound short long same) in
          absurd (
            omega (
              arith,
              e,
              length-append base (c ∷ name),
              length-append base (c ∷ (name ++ (d ∷ more))),
              length-append name (d ∷ more),
            ))
      | inr other ↦ other
    ]

-- The file names of a job differ: one is longer.
pub paths_apart :
    (hash_key : Str → Str) (dir key uuid : Str)
    → str_eq (final_path_of hash_key dir key) (temp_path_of hash_key dir key uuid) ≡ false
unfolding final_path_of temp_path_of
paths_apart hash_key dir key uuid =
    longer_differs (cache_objects_dir dir) (hash_key key) (codes "tmp-" ++ uuid) 47 46
