-- ===== src/Cache/Table.antt =====
-- The SQL statements of src/cache.rs as functions on the rows of `cache_entries`.
pub mod Lookup
pub mod Keys
pub mod Eviction
use http_cache.Prelude.{
  List, [], ◌∷◌, Option, none, some, not, map, keep, Str, str_eq, if◌then◌else◌,
}
use http_cache.Prelude.Int.{ℤ}
use http_cache.Cache.World.{Row}

-- `SELECT .. WHERE key = ?`
unfoldable pub select_key : Str → List Row → Option Row
select_key key [] = none
select_key key (r ∷ rows) = if str_eq r.key key then some r else select_key key rows

-- `INSERT .. ON CONFLICT(key) DO UPDATE SET` every other column.
unfoldable pub upsert : Row → List Row → List Row
upsert row [] = row ∷ []
upsert row (r ∷ rows) =
    if str_eq r.key row.key then record row { key = r.key } ∷ rows else r ∷ upsert row rows

-- `DELETE .. WHERE key = ?`
unfoldable pub delete_key : Str → List Row → List Row
delete_key key = keep (λ r. not (str_eq r.key key))

-- `UPDATE .. SET last_access = ? WHERE key = ?`
abbrev pub touched : ℤ → Str → Row → Row
touched now key r = if str_eq r.key key then record r { last_access = now } else r

unfoldable pub touch_key : ℤ → Str → List Row → List Row
touch_key now key = map (touched now key)
