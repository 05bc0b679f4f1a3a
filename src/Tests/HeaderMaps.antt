-- ===== src/Tests/HeaderMaps.antt =====
-- Header maps as lists of pairs, which meet what src/headers.rs relies on of hyper.
use http_cache.Prelude.Members.{keep_sound, keep_complete}
use http_cache.Headers.{HeaderLib}
use http_cache.Prelude.{
  refl, none, some, [], ◌∷◌, inl, inr, true, false, List, Str, ℕ, Option, keep, ◌≡◌, ◌≢◌, not, ◌↔◌,
  length, if◌then◌else◌, str_eq, Bool-cases, to_ascii_lowercase, str_eq_refl, sym, codes,
  str_eq_sound, str_eq_iff, is_empty, arith, leb, ap, ◌&&◌, ltb, ◌≤◌, ◌<◌,
}
use mathlib.Core.List.{Memᴰ}

abbrev pub Entries : Type 0
Entries = List (Str × Str)

unfoldable pub look_up : Entries → Str → Option Str
look_up [] name = none
look_up ((k, v) ∷ m) name = if str_eq k name then some v else look_up m name

unfoldable pub without : Str → Entries → Entries
without name = keep (λ entry. not (str_eq entry.0 name))

pub look_up_some :
    (m : Entries) (name value : Str) → look_up m name ≡ some value → Memᴰ (name, value) m
unfolding look_up
look_up_some [] name value e = cc
look_up_some ((k, v) ∷ m) name value e = elim (Bool-cases (str_eq k name)) [
  | inl same ↦
      let f = str_eq_sound k name same in let h : v ≡ value = ground arith in Memᴰ.head (rw (f, h))
  | inr other ↦ Memᴰ.tail (look_up_some m name value (ground arith))
]

pub look_up-none : (m : Entries) (name value : Str) → look_up m name ≡ none → ¬ Memᴰ (name, value) m
unfolding look_up
look_up-none [] name value e i = elim i [ ]
look_up-none ((k, v) ∷ m) name value e (Memᴰ.head here) =
    let same : str_eq k name ≡ true = (str_eq_iff k name).1 (sym (ap (λ p. p.0) here)) in
    ground arith
look_up-none ((k, v) ∷ m) name value e (Memᴰ.tail i) = look_up-none m name value (ground arith) i

different : (k name : Str) → k ≢ name → str_eq k name ≡ false
different k name h = elim (Bool-cases (str_eq k name)) [
  | inl e ↦ absurd (h (str_eq_sound k name e))
  | inr e ↦ e
]

pub look_up-without :
    (m : Entries) (name other : Str)
    → other ≢ name
    → look_up (without name m) other ≡ look_up m other
unfolding look_up without
look_up-without [] name other h = refl
look_up-without ((k, v) ∷ m) name other h = elim (Bool-cases (str_eq k name)) [
  | inl same ↦
      let f = str_eq_sound k name same in
      rw (f, str_eq_refl name, different name other (λ e. h (sym e)))
        (look_up-without m name other h)
  | inr differs ↦ elim (Bool-cases (str_eq k other)) [
    | inl here ↦ rw (differs, here)
    | inr there ↦ rw (differs, there) (look_up-without m name other h)
  ]
]

not_same : (k name : Str) → k ≢ name → not (str_eq k name) ≡ true
not_same k name h = rw (different k name h)

same_not : (k name : Str) → not (str_eq k name) ≡ true → k ≢ name
same_not k name h e = let f = (str_eq_iff k name).1 e in ground arith

pub without_iff :
    (m : Entries) (name : Str) (entry : Str × Str)
    → Memᴰ entry (without name m) ↔ (Memᴰ entry m × (entry.0 ≢ name))
unfolding without
without_iff m name entry = (
  λ i.
      let (j, e) = keep_sound (λ entry. not (str_eq entry.0 name)) m entry i in
      (j, same_not entry.0 name e),
  λ (j, h). keep_complete (λ entry. not (str_eq entry.0 name)) m entry j (not_same entry.0 name h),
)

unfoldable pub name_of : Str → Option Str
name_of s = if is_empty s then none else some (to_ascii_lowercase s)

abbrev pub status : ℕ → Option ℕ
status n = if leb 100 n && ltb n 1000 then some n else none

pub added_same : (m : Entries) (name value : Str) → look_up ((name, value) ∷ m) name ≡ some value
unfolding look_up
added_same m name value = rw (str_eq_refl name)

pub added_other :
    (m : Entries) (name other value : Str)
    → other ≢ name
    → look_up ((name, value) ∷ without name m) other ≡ look_up m other
unfolding look_up
added_other m name other value h =
    rw (different name other (λ e. h (sym e))) (look_up-without m name other h)

pub connection_lem : name_of (codes "connection") ≡ some (codes "connection")
unfolding name_of to_ascii_lowercase
connection_lem = refl

pub status_lem : (n : ℕ) → 100 ≤ n → n < 1000 → status n ≡ some n
status_lem n low high = ground arith

abbrev pub header_lib : HeaderLib
header_lib = record {
  HeaderName = Str;
  HeaderValue = Str;
  HeaderMap = Entries;
  from_bytes = name_of;
  as_str = λ name. name;
  from_str = λ s. some s;
  to_str = λ value. some value;
  value_len = length;
  connection = codes "connection";
  proxy_authorization = codes "proxy-authorization";
  content_length = codes "content-length";
  cache_control = codes "cache-control";
  expires = codes "expires";
  host = codes "host";
  range = codes "range";
  from_u16 = status;
  empty = [];
  iter = λ m. m;
  get = look_up;
  insert = λ name value m. (name, value) ∷ without name m;
  remove = without;
  to_str-from_str = λ s value e. sym e;
  from_u16_lem = status_lem;
  from_bytes-connection = connection_lem;
  get_some = look_up_some;
  get_none = look_up-none;
  get-insert_same = λ m name value. added_same (without name m) name value;
  get-insert_other = added_other;
  get-remove_other = look_up-without;
  iter-remove = without_iff;
}
