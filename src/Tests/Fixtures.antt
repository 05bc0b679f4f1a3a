-- ===== src/Tests/Fixtures.antt =====
-- An order on rows, which meets what src/cache.rs relies on of SQLite, and a small world.
use mathlib.Core.List.Permᴰ
use mathlib.Core.List.{Permᴰ}
use http_cache.Prelude.{
  ℕ, refl, List, [], ◌∷◌, ◌++◌, Option, some, Str, codes, All, if◌then◌else◌, Bool-cases, inl, inr,
  arith,
}
use http_cache.Prelude.Int.{pos, ◌≤ℤ◌, leb_ℤ}
use http_cache.Body.{Bytes}
use http_cache.Cache.World.{Row}
use http_cache.Cache.Sqlite.{Order, Ascending}

unfoldable pub insert_row : Row → List Row → List Row
insert_row r [] = r ∷ []
insert_row r (s ∷ rows) =
    if leb_ℤ r.last_access s.last_access then r ∷ s ∷ rows else s ∷ insert_row r rows

unfoldable pub sort_rows : List Row → List Row
unfolding insert_row
sort_rows [] = []
sort_rows (r ∷ rows) = insert_row r (sort_rows rows)

insert_row-Permᴰ : (r : Row) (rows : List Row) → Permᴰ (insert_row r rows) (r ∷ rows)
unfolding insert_row
insert_row-Permᴰ r [] = Permᴰ.refl _
insert_row-Permᴰ r (s ∷ rows) = elim (Bool-cases (leb_ℤ r.last_access s.last_access)) [
  | inl first ↦ rw first (Permᴰ.refl _)
  | inr later ↦
      rw later (Permᴰ.trans (Permᴰ.cons refl (insert_row-Permᴰ r rows)) (Permᴰ.swap refl refl))
]

pub sort_rows-Permᴰ : (rows : List Row) → Permᴰ (sort_rows rows) rows
unfolding sort_rows
sort_rows-Permᴰ [] = Permᴰ.nil
sort_rows-Permᴰ (r ∷ rows) =
    Permᴰ.trans (insert_row-Permᴰ r (sort_rows rows)) (Permᴰ.cons refl (sort_rows-Permᴰ rows))

abbrev After : Row → List Row → Type 0
After r rows = All (λ s. r.last_access ≤ℤ s.last_access) rows

insert_row-After :
    (q r : Row) (rows : List Row)
    → q.last_access ≤ℤ r.last_access
    → After q rows
    → After q (insert_row r rows)
unfolding insert_row
insert_row-After q r [] h a = (h, tt)
insert_row-After q r (s ∷ rows) h a = ground (arith, insert_row-After q r rows h a.1)

After-trans :
    (q r : Row) (rows : List Row) → q.last_access ≤ℤ r.last_access → After r rows → After q rows
After-trans q r [] h a = tt
After-trans q r (s ∷ rows) h a = (omega arith, After-trans q r rows h a.1)

insert_row-Ascending : (r : Row) (rows : List Row) → Ascending rows → Ascending (insert_row r rows)
unfolding insert_row
insert_row-Ascending r [] a = (tt, tt)
insert_row-Ascending r (s ∷ rows) a = elim (Bool-cases (leb_ℤ r.last_access s.last_access)) [
  | inl first ↦
      let h : r.last_access ≤ℤ s.last_access = ground arith in
      rw first ((h, After-trans r s rows h a.0), a)
  | inr later ↦
      let h : s.last_access ≤ℤ r.last_access = ground arith in
      rw later (insert_row-After s r rows h a.0, insert_row-Ascending r rows a.1)
]

pub sort_rows-Ascending : (rows : List Row) → Ascending (sort_rows rows)
unfolding sort_rows
sort_rows-Ascending [] = tt
sort_rows-Ascending (r ∷ rows) = insert_row-Ascending r (sort_rows rows) (sort_rows-Ascending rows)

abbrev pub order : Order
order = record {
  by_last_access = sort_rows;
  permutes = sort_rows-Permᴰ;
  ascends = sort_rows-Ascending;
}

-- A row for a text file of eleven bytes.
abbrev pub asset : Str → ℕ → ℕ → Row
asset name used expires = record {
  key = codes "GET http://example.com/" ++ name;
  method = codes "GET";
  url = codes "http://example.com/" ++ name;
  status = 200;
  headers = [];
  body_path = some (codes ".cache/objects/" ++ name);
  body_size = pos 11;
  created_at = pos used;
  expires_at = pos expires;
  last_access = pos used;
}

-- Every path under the objects directory holds the same body.
abbrev pub full_disk : Str → Option Bytes
full_disk path = some (codes "hello-cache")
