-- ===== src/Cache/Table/Keys.antt =====
-- The primary key of `cache_entries` in src/cache.rs: no statement makes two rows with one key.
use http_cache.Prelude.{
  sym, ◌≢◌, List, [], ◌∷◌, Bool, arith, keep, Str, str_eq, str_eq_iff, All, Bool-cases, inl, inr,
}
use http_cache.Prelude.Int.{ℤ}
use http_cache.Cache.World.{Row}
use http_cache.Cache.Table.{upsert, delete_key, touch_key}

abbrev pub IsFresh : Str → List Row → Type 0
IsFresh key rows = All (λ r. r.key ≢ key) rows

abbrev pub HasUniqueKeys : List Row → Type 0
HasUniqueKeys [] = Unit
HasUniqueKeys (r ∷ rows) = IsFresh r.key rows × HasUniqueKeys rows

upsert-IsFresh :
    (key : Str) (row : Row) (rows : List Row)
    → row.key ≢ key
    → IsFresh key rows
    → IsFresh key (upsert row rows)
unfolding upsert
upsert-IsFresh key row [] h f = (h, tt)
upsert-IsFresh key row (r ∷ rows) h f = ground (arith, upsert-IsFresh key row rows h)

pub upsert-HasUniqueKeys :
    (row : Row) (rows : List Row) → HasUniqueKeys rows → HasUniqueKeys (upsert row rows)
unfolding upsert
upsert-HasUniqueKeys row [] u = (tt, tt)
upsert-HasUniqueKeys row (r ∷ rows) u = elim (Bool-cases (str_eq r.key row.key)) [
  | inl same ↦ rw same u
  | inr different ↦ rw different (
    upsert-IsFresh r.key row rows (λ e. let f = (str_eq_iff r.key row.key).1 (sym e) in cc) u.0,
    upsert-HasUniqueKeys row rows u.1,
  )
]

pub keep-IsFresh :
    (p : Row → Bool) (key : Str) (rows : List Row) → IsFresh key rows → IsFresh key (keep p rows)
keep-IsFresh p key [] f = tt
keep-IsFresh p key (r ∷ rows) f = ground (arith, keep-IsFresh p key rows)

pub keep-HasUniqueKeys :
    (p : Row → Bool) (rows : List Row) → HasUniqueKeys rows → HasUniqueKeys (keep p rows)
keep-HasUniqueKeys p [] u = tt
keep-HasUniqueKeys p (r ∷ rows) u =
    ground (arith, keep-IsFresh p r.key rows, keep-HasUniqueKeys p rows)

pub delete_key-HasUniqueKeys :
    (key : Str) (rows : List Row) → HasUniqueKeys rows → HasUniqueKeys (delete_key key rows)
unfolding delete_key
delete_key-HasUniqueKeys key rows u = keep-HasUniqueKeys _ rows u

touch_key-IsFresh :
    (now : ℤ) (key other : Str) (rows : List Row)
    → IsFresh other rows
    → IsFresh other (touch_key now key rows)
unfolding touch_key
touch_key-IsFresh now key other [] f = tt
touch_key-IsFresh now key other (r ∷ rows) f = ground (arith, touch_key-IsFresh now key other rows)

pub touch_key-HasUniqueKeys :
    (now : ℤ) (key : Str) (rows : List Row)
    → HasUniqueKeys rows
    → HasUniqueKeys (touch_key now key rows)
unfolding touch_key
touch_key-HasUniqueKeys now key [] u = tt
touch_key-HasUniqueKeys now key (r ∷ rows) u =
    ground (arith, touch_key-IsFresh now key r.key rows, touch_key-HasUniqueKeys now key rows)
