-- ===== src/Cache/Table/Lookup.antt =====
-- What a lookup by key finds after each SQL statement of src/cache.rs.
use mathlib.Core.Option
use http_cache.Prelude.{
  ◌≡◌, refl, List, [], ◌∷◌, none, some, arith, Str, str_eq, str_eq_iff, if◌then◌else◌,
}
use http_cache.Prelude.Int.{ℤ}
use http_cache.Cache.World.{Row}
use http_cache.Cache.Table.{select_key, upsert, delete_key, touched, touch_key}

pub select_key-key :
    (key : Str) (rows : List Row) (r : Row) → select_key key rows ≡ some r → r.key ≡ key
unfolding select_key
select_key-key key [] r h = cc
select_key-key key (s ∷ rows) r h = ground (arith, str_eq_iff s.key key, select_key-key key rows r)

rekeyed : (row r : Row) → r.key ≡ row.key → ◌≡◌ {A = Row} (record row { key = r.key }) row
rekeyed row r e = rw e

pub select_key-upsert :
    (key : Str) (row : Row) (rows : List Row)
    → select_key key (upsert row rows)
      ≡ (if str_eq row.key key then some row else select_key key rows)
unfolding select_key upsert
select_key-upsert key row [] = refl
select_key-upsert key row (r ∷ rows) = ground (
  arith,
  str_eq_iff r.key row.key,
  str_eq_iff r.key key,
  str_eq_iff row.key key,
  rekeyed row r,
  select_key-upsert key row rows,
)

pub select_key-delete_key :
    (key other : Str) (rows : List Row)
    → select_key other (delete_key key rows)
      ≡ (if str_eq key other then none else select_key other rows)
unfolding select_key delete_key
select_key-delete_key key other [] = ground arith
select_key-delete_key key other (r ∷ rows) = ground (
  arith,
  str_eq_iff r.key key,
  str_eq_iff r.key other,
  str_eq_iff key other,
  select_key-delete_key key other rows,
)

touched_key : (now : ℤ) (key : Str) (r : Row) → (touched now key r).key ≡ r.key
touched_key now key r = ground arith

pub select_key-touch_key :
    (now : ℤ) (key other : Str) (rows : List Row)
    → select_key other (touch_key now key rows)
      ≡ Option.map (touched now key) (select_key other rows)
unfolding select_key touch_key
select_key-touch_key now key other [] = refl
select_key-touch_key now key other (r ∷ rows) =
    rw (touched_key now key r) (ground (arith, select_key-touch_key now key other rows))
