-- ===== src/Cache/Ideal/Refined.antt =====
-- The SQLite cache of src/cache.rs behaves as the map of its entries.
use http_cache.Cache.Table.Eviction.{delete_keys}
use http_cache.Cache.Sqlite.Lookups.{entry_of, to_entry-to_row, no_victims}
use http_cache.Cache.Backend.{sqlite_cache}
use http_cache.Prelude.Words.{u64_mod}
use http_cache.Cache.Table.Lookup.{
  select_key-delete_key, select_key-touch_key, select_key-key, select_key-upsert,
}
use http_cache.Cache.Table.{select_key, delete_key, touch_key, touched, upsert}
use http_cache.Body.{Bytes}
use http_cache.Errors.{Result, ok}
use http_cache.Cache.World.{World, Row}
use http_cache.Cache.{CacheEntry, CacheStoreRequest, cache_key, now_unix}
use http_cache.Prelude.Int.{ℤ}
use http_cache.Prelude.{
  if◌then◌else◌, none, some, [], inl, inr, List, Str, ◌≡◌, Option, arith, Bool-cases, str_eq,
  str_eq_sound, str_eq_refl, refl, false, str_eq_iff, ap, ◌∙◌, ◌<◌, ◌∷◌, subst, All, map, ap₂,
}
use mathlib.Core.Option
use http_cache.Cache.Ideal.{
  Call, looks_up, stores, takes_out, writes, Ideal, assign, is_live, take_out, find, path_of,
  ideal_call, ideal_answers, code_call, code_answers,
}
use http_cache.Cache.Sqlite.Calm.{calm, removed, delete-calm, get-calm, store-calm}
use http_cache.Cache.Sqlite.{
  answer, discard, hit, is_dangling, Json, to_entry, body_path_of, Order, SqliteCache, to_row,
}

answer-calm :
    (now : ℤ) (e : CacheEntry) (rows : List Row) (files : Str → Option Bytes)
    → answer now (some e) (calm rows files) ≡ (
        if is_live files now e
        then (ok (some (record e { last_access = now })), calm (touch_key now e.key rows) files)
        else (
          ok none,
          calm (delete_key e.key rows) (removed (body_path_of (select_key e.key rows)) files),
        ))
unfolding answer discard is_dangling hit
answer-calm now e rows files = ground (arith, delete-calm e.key rows files)

-- The entry that the code reads under a key.
abbrev pub read : Json → List Row → Str → Option CacheEntry
read json rows key = Option.map (to_entry json) (select_key key rows)

-- The rows stand for the map, and the files are the same.
abbrev pub Represents : Json → World → Ideal → Type 0
Represents json w s =
    ((key : Str) → read json w.rows key ≡ s.entries key) × (w.files ≡ s.files) × (w.faults ≡ [])

-- A call does as the map does, and leaves rows that stand for the map it leaves.
abbrev Agrees : Json → Result (Option CacheEntry) × World → Option CacheEntry × Ideal → Type 0
Agrees json (r, w) (a, s) = (r ≡ ok a) × Represents json w s

module _ (json : Json) where
  read-delete_key :
      (key other : Str) (rows : List Row)
      → read json (delete_key key rows) other ≡ assign key none (read json rows) other
  read-delete_key key other rows = rw (select_key-delete_key key other rows) (ground arith)

  different : (key other : Str) → str_eq key other ≡ false → str_eq other key ≡ false
  different key other e = ground (arith, str_eq_iff key other, str_eq_iff other key)

  untouched :
      (now : ℤ) (key other : Str) (o : Option Row)
      → ((r : Row) → o ≡ some r → r.key ≡ other)
      → str_eq key other ≡ false
      → Option.map (touched now key) o ≡ o
  untouched now key other none k differs = refl
  untouched now key other (some r) k differs =
      let e = k r refl in rw (e, different key other differs)

  read-touch_key :
      (now : ℤ) (key other : Str) (rows : List Row) (r : Row)
      → select_key key rows ≡ some r
      → read json (touch_key now key rows) other
        ≡ assign key (some (record (to_entry json r) { last_access = now })) (read json rows) other
  unfolding to_entry
  read-touch_key now key other rows r found =
      rw (select_key-touch_key now key other rows) (elim (Bool-cases (str_eq key other)) [
        | inl same ↦
            let e = str_eq_sound key other same in
            let k = select_key-key key rows r found in
            let found' : select_key other rows ≡ some r = cc in
            rw (same, found') (ground (arith, str_eq_refl key))
        | inr differs ↦ rw differs (
            ap (Option.map (to_entry json))
              (untouched now key other (select_key other rows) (select_key-key other rows) differs))
      ])

  path_of_row : (o : Option Row) → body_path_of o ≡ path_of (Option.map (to_entry json) o)
  unfolding to_entry
  path_of_row none = refl
  path_of_row (some r) = refl

  -- An assignment on either side keeps them alike.
  assigned :
      (key other : Str) (a : Option CacheEntry) (f g : Str → Option CacheEntry)
      → ((k : Str) → f k ≡ g k)
      → assign key a f other ≡ assign key a g other
  assigned key other a f g h = rw (h other)

  module _ (now : ℤ) (key : Str) (rows : List Row) (s : Ideal)
      (alike : (k : Str) → read json rows k ≡ s.entries k) where
    live-Agrees :
        (r : Row)
        → select_key key rows ≡ some r
        → r.key ≡ key
        → Represents json (calm (touch_key now r.key rows) s.files) (record s {
          entries = assign key (some (record (to_entry json r) { last_access = now })) s.entries;
        })
    live-Agrees r e k = (
      λ other.
          ap (λ key'. read json (touch_key now key' rows) other) k
          ∙ (read-touch_key now key other rows r e
              ∙ assigned key other _ (read json rows) s.entries alike),
      refl,
      refl,
    )

    dead-Agrees :
        (path : Option Str)
        → Represents json (calm (delete_key key rows) (removed path s.files)) (take_out key path s)
    dead-Agrees path = (
      λ other.
          read-delete_key key other rows ∙ assigned key other none (read json rows) s.entries alike,
      refl,
      refl,
    )

    found-Agrees :
        (o : Option Row)
        → select_key key rows ≡ o
        → Agrees json
            (answer now (Option.map (to_entry json) o) (calm rows s.files))
            (find now key (Option.map (to_entry json) o) s)
    unfolding answer find to_entry
    found-Agrees none e = (refl, (alike, refl, refl))
    found-Agrees (some r) e =
        let k = select_key-key key rows r e in
        rw (answer-calm now (to_entry json r) rows s.files)
          (elim (Bool-cases (is_live s.files now (to_entry json r))) [
            | inl live ↦ rw live (refl, live-Agrees r e k)
            | inr dead ↦ rw (dead, k, e) (refl, dead-Agrees r.body_path)
          ])

    deleted-Agrees :
        Represents json
          (calm (delete_key key rows) (removed (body_path_of (select_key key rows)) s.files))
          (take_out key (path_of (s.entries key)) s)
    deleted-Agrees =
        rw (path_of_row (select_key key rows) ∙ ap path_of (alike key))
          (dead-Agrees (path_of (s.entries key)))

  stored-Agrees :
      (request : CacheStoreRequest) (text : Str) (rows : List Row) (s : Ideal)
      → ((k : Str) → read json rows k ≡ s.entries k)
      → json.to_json request.headers ≡ some text
      → request.body_size < u64_mod
      → Represents json (calm (upsert (to_row json request) rows) s.files) (record s {
        entries = assign request.key (some (entry_of request request.created_at)) s.entries;
      })
  unfolding to_row
  stored-Agrees request text rows s alike printed small = (λ other. written other, refl, refl)
    where
      written :
          (other : Str)
          → read json (upsert (to_row json request) rows) other
            ≡ assign request.key (some (entry_of request request.created_at)) s.entries other
      written other =
          rw (select_key-upsert other (to_row json request) rows)
            (elim (Bool-cases (str_eq request.key other)) [
              | inl same ↦ rw same (ap some (to_entry-to_row json request text printed small))
              | inr differs ↦ rw differs (alike other)
            ])

-- What the map cannot tell: the headers can be printed, and the size is a u64.
abbrev pub IsPrintable : Json → Call → Type 0
IsPrintable json (stores request) =
    ((text : Str) × (json.to_json request.headers ≡ some text)) × (request.body_size < u64_mod)
IsPrintable json _ = Unit

module _ (json : Json) (order : Order) (cache : SqliteCache)
    (unlimited : cache.max_entries ≡ 0) where
  call-Agrees :
      (c : Call) (rows : List Row) (s : Ideal)
      → IsPrintable json c
      → ((k : Str) → read json rows k ≡ s.entries k)
      → Agrees json
          (code_call json order (sqlite_cache cache) c (calm rows s.files))
          (ideal_call c s)
  unfolding code_call ideal_call delete_keys
  call-Agrees (looks_up clock method url) rows s p alike =
      rw (get-calm json clock method url rows s.files, ← alike (cache_key method url))
        (found-Agrees json (now_unix clock) (cache_key method url) rows s alike _ refl)
  call-Agrees (stores request) rows s ((text, printed), small) alike =
      rw
        (
          store-calm order json cache request rows s.files,
          no_victims order cache.max_entries (upsert (to_row json request) rows) (inl unlimited),
        )
        (refl, stored-Agrees json request text rows s alike printed small)
  call-Agrees (takes_out key) rows s p alike =
      rw (delete-calm key rows s.files) (refl, deleted-Agrees json (now_unix none) key rows s alike)
  call-Agrees (writes path body) rows s p alike = (refl, (alike, refl, refl))

  any_call-Agrees :
      (c : Call) (w : World) (s : Ideal)
      → IsPrintable json c
      → Represents json w s
      → Agrees json (code_call json order (sqlite_cache cache) c w) (ideal_call c s)
  any_call-Agrees c w s p (alike, same_files, no_faults) =
      let e : calm w.rows s.files ≡ w = rw (same_files, no_faults) in
      subst (λ w. Agrees json (code_call json order (sqlite_cache cache) c w) (ideal_call c s)) e
        (call-Agrees c w.rows s p alike)

  -- Without a limit and with no failing call, the SQLite cache and the map of its entries answer
  -- every sequence of calls alike, if they start alike: the calls are lookups, stores of requests
  -- whose headers can be printed and whose size is a u64, deletions, and writes of body files by
  -- others.
  pub answers_refine :
      (calls : List Call) (w : World) (s : Ideal)
      → All (IsPrintable json) calls
      → Represents json w s
      → code_answers json order (sqlite_cache cache) calls w ≡ map ok (ideal_answers calls s)
  unfolding code_answers ideal_answers
  answers_refine [] w s p r = refl
  answers_refine (c ∷ calls) w s (p, ps) r =
      let (e, agrees) = any_call-Agrees c w s p r in ap₂ ◌∷◌ e (answers_refine calls _ _ ps agrees)
