-- ===== src/Cache/Control/Directives.antt =====
-- What `parse_cache_control` of src/cache.rs reads, stated by the parts of the header.
use mathlib.Core.List.{Memᴰ}
use http_cache.Prelude.{
  ℕ, ◌≡◌, refl, ap, ◌↔◌, List, [], ◌∷◌, Option, none, some, Bool, true, false, ◌||◌, any, map, Str,
  codes, eq_ignore_ascii_case, strip_prefix, split, trim, arith, any-Memᴰ, any_of_Memᴰ,
  to_ascii_lowercase, str_eq_sound,
}
use http_cache.Prelude.Decimal.{parse_u64}
use http_cache.Cache.Control.{
  CacheControl, no_directives, read_part, read_parts, parse_cache_control,
}

abbrev pub parts_of : Str → List Str
parts_of value = map trim (split b',' value)

abbrev is_named : Str → Str → Bool
is_named name part = eq_ignore_ascii_case part name

-- The age that a part gives, if it is a `max-age` directive with a u64.
pub age_of_rest : Option Str → Option ℕ
age_of_rest none = none
age_of_rest (some rest) = parse_u64 rest

abbrev pub age_of : Str → Option ℕ
age_of part = age_of_rest (strip_prefix (codes "max-age=") part)

-- The last age among the parts, `before` if there is none.
abbrev pub or_later : Option ℕ → Option ℕ → Option ℕ
or_later before none = before
or_later before (some age) = some age

pub last_age : Option ℕ → List Str → Option ℕ
last_age before [] = before
last_age before (part ∷ parts) = last_age (or_later before (age_of part)) parts

-- A part is one directive at most.
not_max_age :
    (name part : Str)
    → eq_ignore_ascii_case part (b'n' ∷ name) ≡ true
    → strip_prefix (codes "max-age=") part ≡ none
unfolding eq_ignore_ascii_case strip_prefix
not_max_age name [] e = refl
not_max_age name (c ∷ part) e = ground arith

not_no_cache :
    (part : Str)
    → is_named (codes "no-store") part ≡ true
    → is_named (codes "no-cache") part ≡ false
unfolding eq_ignore_ascii_case
not_no_cache part e = rw (str_eq_sound (to_ascii_lowercase part) _ e)

read_part_lem :
    (control : CacheControl) (part : Str)
    → read_part control part ≡ record {
      no_store = is_named (codes "no-store") part || control.no_store;
      no_cache = is_named (codes "no-cache") part || control.no_cache;
      max_age = or_later control.max_age (age_of part);
    }
unfolding read_part age_of_rest
read_part_lem control part = ground (
  arith,
  not_max_age (codes "o-store") part,
  not_max_age (codes "o-cache") part,
  not_no_cache part,
)

read_parts_lem :
    (control : CacheControl) (parts : List Str)
    → read_parts control parts ≡ record {
      no_store = any (is_named (codes "no-store")) parts || control.no_store;
      no_cache = any (is_named (codes "no-cache")) parts || control.no_cache;
      max_age = last_age control.max_age parts;
    }
unfolding read_parts last_age
read_parts_lem control [] = refl
read_parts_lem control (part ∷ parts) =
    ground (arith, read_part_lem control part, read_parts_lem (read_part control part) parts)

some_part :
    (p : Str → Bool) (parts : List Str) (b : Bool)
    → b ≡ (any p parts || false)
    → (b ≡ true) ↔ ((part : Str) × Memᴰ part parts × (p part ≡ true))
some_part p parts b e = (
  λ h. any-Memᴰ p parts (ground arith),
  λ (part, i, holds). let f = any_of_Memᴰ p parts part i holds in ground arith,
)

-- The directives of a header value, each stated by its parts.
pub record Directives (value : Str) (control : CacheControl) : Type 0 where
  pub no_store : (control.no_store ≡ true) ↔ (
      (part : Str) × Memᴰ part (parts_of value)
      × (eq_ignore_ascii_case part (codes "no-store") ≡ true))
  pub no_cache : (control.no_cache ≡ true) ↔ (
      (part : Str) × Memᴰ part (parts_of value)
      × (eq_ignore_ascii_case part (codes "no-cache") ≡ true))
  pub max_age : control.max_age ≡ last_age none (parts_of value)

-- The parts are what stands between the commas, without the blanks around it. `no_store` and
-- `no_cache` are set exactly if some part is that word, in any case of letters, wherever it stands;
-- `max_age` is the age of the last part that begins with `max-age=` and goes on with a u64.
pub parse_cache_control-Directives : (value : Str) → Directives value (parse_cache_control value)
unfolding parse_cache_control
parse_cache_control-Directives value =
    let e = read_parts_lem no_directives (parts_of value) in
    record {
      no_store =
          some_part (is_named (codes "no-store")) (parts_of value) _ (ap (λ c. c.no_store) e);
      no_cache =
          some_part (is_named (codes "no-cache")) (parts_of value) _ (ap (λ c. c.no_cache) e);
      max_age = ap (λ c. c.max_age) e;
    }
