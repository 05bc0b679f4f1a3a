-- ===== src/Cache/Ideal.antt =====
-- What src/cache.rs promises: a map from keys to entries, with the files beside it. Neither the
-- order of the rows nor the text that the headers are printed as is seen.
pub mod Refined
use http_cache.Cache.Backend.{Cache}
use http_cache.Cache.Sqlite.Lookups.{entry_of}
use http_cache.Cache.World.{World}
use http_cache.Cache.Sqlite.Calm.{removed}
use http_cache.Body.{Bytes}
use http_cache.Cache.Sqlite.{Json, Order}
use http_cache.Errors.{Result, ok, err}
use http_cache.Prelude.Int.{ℤ, leb_ℤ}
use http_cache.Cache.{Clock, now_unix, CacheStoreRequest, CacheEntry, cache_key}
use http_cache.Prelude.{
  if◌then◌else◌, ◌&&◌, none, some, [], ◌∷◌, true, Str, Option, List, if◌then◌else◌, str_eq, Bool,
  is_some, not, ◌&&◌,
}
use http_cache.Cache.Backend

-- A call of the cache, or another task's write of a body file.
pub data Call : Type 0 where
  looks_up : Clock → Str → Str → Call
  stores : CacheStoreRequest → Call
  takes_out : Str → Call
  writes : Str → Bytes → Call

pub record Ideal : Type 0 where
  pub entries : Str → Option CacheEntry
  pub files : Str → Option Bytes

abbrev pub assign {ℓ} : {A : Type ℓ} → Str → Option A → (Str → Option A) → Str → Option A
assign key a m other = if str_eq key other then a else m other

abbrev pub has_body : (Str → Option Bytes) → Option Str → Bool
has_body files none = true
has_body files (some path) = is_some (files path)

abbrev pub is_live : (Str → Option Bytes) → ℤ → CacheEntry → Bool
is_live files now e = not (leb_ℤ e.expires_at now) && has_body files e.body_path

abbrev pub take_out : Str → Option Str → Ideal → Ideal
take_out key body_path s = record {
  entries = assign key none s.entries;
  files = removed body_path s.files;
}

-- A live entry is found, with the time of the lookup; any other goes.
unfoldable pub find : ℤ → Str → Option CacheEntry → Ideal → Option CacheEntry × Ideal
find now key none s = (none, s)
find now key (some e) s =
    if is_live s.files now e
    then (
      some (record e { last_access = now }),
      record s { entries = assign key (some (record e { last_access = now })) s.entries },
    )
    else (none, take_out key e.body_path s)

abbrev pub path_of : Option CacheEntry → Option Str
path_of none = none
path_of (some e) = e.body_path

-- What a call returns, and the map after it.
unfoldable pub ideal_call : Call → Ideal → Option CacheEntry × Ideal
unfolding find now_unix cache_key
ideal_call (looks_up clock method url) s =
    let key = cache_key method url in find (now_unix clock) key (s.entries key) s
ideal_call (stores request) s = (
  none,
  record s { entries = assign request.key (some (entry_of request request.created_at)) s.entries },
)
ideal_call (takes_out key) s = (none, take_out key (path_of (s.entries key)) s)
ideal_call (writes path body) s = (none, record s { files = assign path (some body) s.files })

unfoldable pub ideal_answers : List Call → Ideal → List (Option CacheEntry)
ideal_answers [] s = []
ideal_answers (c ∷ calls) s =
    let (answer, after) = ideal_call c s in answer ∷ ideal_answers calls after

-- The same calls of the code.
abbrev pub nothing : Result (Unit {0}) × World → Result (Option CacheEntry) × World
nothing (ok u, w) = (ok none, w)
nothing (err e, w) = (err e, w)

module _ (json : Json) (order : Order) (cache : Cache) where
  unfoldable pub code_call : Call → World → Result (Option CacheEntry) × World
  unfolding Backend.get Backend.store Backend.delete
  code_call (looks_up clock method url) w = Backend.get json order cache clock method url w
  code_call (stores request) w = nothing (Backend.store json order cache request w)
  code_call (takes_out key) w = nothing (Backend.delete json order cache key w)
  code_call (writes path body) w = (ok none, record w { files = assign path (some body) w.files })

  unfoldable pub code_answers : List Call → World → List (Result (Option CacheEntry))
  code_answers [] w = []
  code_answers (c ∷ calls) w =
      let (answer, after) = code_call c w in answer ∷ code_answers calls after
