-- ===== src/Tests/Headers.antt =====
-- A printer and reader of header lists, which meets what src/cache.rs relies on of serde_json.
use mathlib.Core.List.{append_assoc, append-nil}
use http_cache.Prelude.{
  zero, suc, ◌≡◌, refl, ap, ◌∙◌, List, [], ◌∷◌, ◌++◌, map, Option, none, some, Str,
}
use http_cache.Cache.Sqlite.{Json}

-- Each character as its successor, and a zero behind each text.
unfoldable pub print : List (Str × Str) → Str
print [] = []
print ((name, value) ∷ headers) = map suc name ++ (zero ∷ (map suc value ++ (zero ∷ print headers)))

unfoldable pub read : Str → Option Str → Str → List (Str × Str)
read cur name [] = []
read cur none (zero ∷ text) = read [] (some cur) text
read cur (some name) (zero ∷ text) = (name, cur) ∷ read [] none text
read cur name (suc c ∷ text) = read (cur ++ (c ∷ [])) name text

read_word :
    (cur : Str) (name : Option Str) (word rest : Str)
    → read cur name (map suc word ++ rest) ≡ read (cur ++ word) name rest
unfolding read
read_word cur name [] rest = rw (append-nil cur)
read_word cur name (c ∷ word) rest =
    read_word (cur ++ (c ∷ [])) name word rest ∙ rw (append_assoc cur (c ∷ []) word)

read-print : (headers : List (Str × Str)) → read [] none (print headers) ≡ headers
unfolding read print
read-print [] = refl
read-print ((name, value) ∷ headers) =
    read_word [] none name (zero ∷ (map suc value ++ (zero ∷ print headers)))
    ∙ (read_word [] (some name) value (zero ∷ print headers)
        ∙ ap (◌∷◌ (name, value)) (read-print headers))

pub read_back :
    (headers : List (Str × Str)) (text : Str)
    → ◌≡◌ {A = Option Str} (some (print headers)) (some text)
    → ◌≡◌ {A = Option (List (Str × Str))} (some (read [] none text)) (some headers)
read_back headers text e = let f : print headers ≡ text = cc in rw (← f, read-print headers)

abbrev pub json : Json
json = record {
  to_json = λ headers. some (print headers);
  from_json = λ text. some (read [] none text);
  from_json-to_json = read_back;
}
