-- ===== src/Cache/Sqlite/Hits.antt =====
-- What a hit of `SqliteCache::get` in src/cache.rs guarantees, whichever calls fail.
use mathlib.Core.Option
use http_cache.Prelude.{
  Option-cases, ◌≡◌, Option, none, some, true, false, Str, arith, is_some, inl, inr, ◌⊎◌,
}
use http_cache.Prelude.Int.{ℤ, ◌<ℤ◌}
use http_cache.Body.{Bytes}
use http_cache.Errors.{ProxyError, ok, err}
use http_cache.Cache.{CacheEntry, Clock, cache_key, now_unix}
use http_cache.Cache.World.{Row, World}
use http_cache.Cache.Table.{select_key, touch_key}
use http_cache.Cache.Sqlite.{Json, select_entry, is_dangling, discard, hit, answer, get, to_entry}

-- The body file of an entry is there, if it has one.
abbrev pub HasBody : (Str → Option Bytes) → Option Str → Type 0
HasBody files none = Unit
HasBody files (some path) = is_some (files path) ≡ true

pub select_entry-found :
    (json : Json) (key : Str) (w : World)
    → ((select_entry json key w).1.rows ≡ w.rows)
      × ((select_entry json key w).1.files ≡ w.files)
      × (((select_entry json key w).0 ≡ ok (Option.map (to_entry json) (select_key key w.rows)))
          ⊎ ((x : ProxyError) × ((select_entry json key w).0 ≡ err x)))
unfolding select_entry
select_entry-found json key w = ground arith

discard-none : (e e' : CacheEntry) (w w' : World) → discard e w ≡ (ok (some e'), w') → ⊥
unfolding discard
discard-none e e' w w' h = ground arith

-- A hit of the entry `e` at time `now`.
pub record IsHit (now : ℤ) (e e' : CacheEntry) (w w' : World) : Type 0 where
  pub entry : e' ≡ record e { last_access = now }
  pub fresh : now <ℤ e.expires_at
  pub body : HasBody w.files e.body_path
  pub rows : w'.rows ≡ touch_key now e.key w.rows
  pub files : w'.files ≡ w.files

hit-some :
    (now : ℤ) (e e' : CacheEntry) (w w' : World)
    → hit now e w ≡ (ok (some e'), w')
    → (e' ≡ record e { last_access = now })
      × (w'.rows ≡ touch_key now e.key w.rows)
      × (w'.files ≡ w.files)
unfolding hit
hit-some now e e' w w' h = ground arith

pub is_dangling-HasBody :
    (path : Option Str) (w : World)
    → ((is_dangling path w).1.rows ≡ w.rows)
      × ((is_dangling path w).1.files ≡ w.files)
      × (((is_dangling path w).0 ≡ ok true)
          ⊎ (((is_dangling path w).0 ≡ ok false) × HasBody w.files path))
unfolding is_dangling
is_dangling-HasBody path w = ground arith

answer-IsHit :
    (now : ℤ) (e e' : CacheEntry) (w w' : World)
    → answer now (some e) w ≡ (ok (some e'), w')
    → IsHit now e e' w w'
unfolding answer
answer-IsHit now e e' w w' h =
    let seen = (is_dangling e.body_path w).1 in
    ground (
      arith,
      discard-none e e' w w',
      discard-none e e' seen w',
      hit-some now e e' seen w',
      is_dangling-HasBody e.body_path w,
    )

no_answer :
    {A : Type 0} (now : ℤ) (e' : CacheEntry) (w w' : World)
    → answer now none w ≡ (ok (some e'), w')
    → A
unfolding answer
no_answer now e' w w' h = cc

-- The two steps of `get`, put together.
get_answers :
    (json : Json) (clock : Clock) (method url : Str) (w w' : World) (e' : CacheEntry)
    → get json clock method url w ≡ (ok (some e'), w')
    → answer
        (now_unix clock)
        (Option.map (to_entry json) (select_key (cache_key method url) w.rows))
        (select_entry json (cache_key method url) w).1
      ≡ (ok (some e'), w')
unfolding get
get_answers json clock method url w w' e' h =
    ground (arith, select_entry-found json (cache_key method url) w)

IsHit-at :
    (now : ℤ) (e e' : CacheEntry) (v w w' : World)
    → v.rows ≡ w.rows
    → v.files ≡ w.files
    → IsHit now e e' v w'
    → IsHit now e e' w w'
IsHit-at now e e' v w w' rows files h = record {
  entry = h.entry;
  fresh = h.fresh;
  body = rw (← files) h.body;
  rows = rw (← rows) h.rows;
  files = rw (← files) h.files;
}

-- A lookup that returns an entry, whichever of its calls failed, found the row that the key
-- selects; the entry is that row with its last access set to now, it expires later than now, its
-- body file exists, and nothing changes in the world but that time of last access.
pub get-IsHit :
    (json : Json) (clock : Clock) (method url : Str) (w w' : World) (e' : CacheEntry)
    → get json clock method url w ≡ (ok (some e'), w')
    → (r : Row) × (select_key (cache_key method url) w.rows ≡ some r)
      × IsHit (now_unix clock) (to_entry json r) e' w w'
get-IsHit json clock method url w w' e' h =
    elim (Option-cases (select_key (cache_key method url) w.rows)) [
      | inl missing ↦
          let a = get_answers json clock method url w w' e' h in
          no_answer (now_unix clock) e' _ w' (rw missing at a)
      | inr (r, found) ↦
          let seen = select_entry-found json (cache_key method url) w in
          let a = get_answers json clock method url w w' e' h in
          (
            r,
            found,
            IsHit-at (now_unix clock) (to_entry json r) e' _ w w' seen.0 seen.1
                (answer-IsHit (now_unix clock) (to_entry json r) e' _ w' (rw found at a)),
          )
    ]
