-- ===== src/Cache/World.antt =====
-- What the operations of src/cache.rs act on: the rows of `cache_entries`, the files under the
-- objects directory, and the outcomes that the environment gives to the calls that may fail.
use http_cache.Prelude.{
  ℕ, List, [], ◌∷◌, Option, none, some, Bool, Str, str_eq, if◌then◌else◌, is_some, false, true,
  ◌&&◌, refl, ◌≡◌, ap,
}
use http_cache.Prelude.Int.{ℤ}
use http_cache.Body.{Bytes}
use http_cache.Errors.{ProxyError, sqlite, internal, Result, ok, err}

-- A row of the table, as the columns are declared: the headers as JSON text, the size as an i64.
pub record Row : Type 0 where
  pub key : Str
  pub method : Str
  pub url : Str
  pub status : ℕ
  pub headers : Str
  pub body_path : Option Str
  pub body_size : ℤ
  pub created_at : ℤ
  pub expires_at : ℤ
  pub last_access : ℤ

-- `faults` says of each coming call of a library whether it fails, and with which message. Once
-- the list is used up all calls succeed.
pub record World : Type 0 where
  pub rows : List Row
  pub files : Str → Option Bytes
  pub faults : List (Option Str)

-- An operation on the world. What it did before an error stays done.
abbrev pub M : Type 0 → Type 0
M A = (w : World) → Result A × World

abbrev pub return : {A : Type 0} → A → M A
return a w = (ok a, w)

infixl 5 ◌>>=◌
abbrev pub ◌>>=◌ : {A B : Type 0} (m : M A) (next : A → M B) → M B
◌>>=◌ m next w = let (result, w') = m w in elim result [ err e ↦ (err e, w') | ok a ↦ next a w' ]

infixl 5 ◌>>◌
abbrev pub ◌>>◌ : {B : Type 0} (m : M (Unit {0})) (next : M B) → M B
◌>>◌ m next = ◌>>=◌ m (λ _. next)

-- The outcome of the next call that may fail, with an error made from its message.
abbrev pub outcome : (Str → ProxyError) → List (Option Str) → Result (Unit {0})
outcome failed [] = ok tt
outcome failed (none ∷ faults) = ok tt
outcome failed (some m ∷ faults) = err (failed m)

abbrev pub succeeds : List (Option Str) → Bool
succeeds [] = true
succeeds (none ∷ faults) = true
succeeds (some m ∷ faults) = false

abbrev pub later : List (Option Str) → List (Option Str)
later [] = []
later (fault ∷ faults) = faults

unfoldable pub attempt : (Str → ProxyError) → M (Unit {0})
attempt failed w = (outcome failed w.faults, record w { faults = later w.faults })

-- A call of rusqlite.
unfoldable pub sql : M (Unit {0})
unfolding attempt
sql = attempt sqlite

-- The end of `spawn_blocking(..).await`, whose failure is an internal error.
unfoldable pub join : M (Unit {0})
unfolding attempt
join = attempt (λ m. internal)

abbrev pub without_file : Str → (Str → Option Bytes) → Str → Option Bytes
without_file path files q = if str_eq path q then none else files q

-- `let _ = std::fs::remove_file(path)`: a failure leaves the file and is ignored.
unfoldable pub remove_file : Str → M (Unit {0})
remove_file path w = (
  ok tt,
  record w {
    files = if succeeds w.faults then without_file path w.files else w.files;
    faults = later w.faults;
  },
)

-- `Path::new(path).exists()`, which is false when the file system cannot tell.
unfoldable pub exists : Str → M Bool
exists path w =
    (ok (succeeds w.faults && is_some (w.files path)), record w { faults = later w.faults })

-- A statement that reads the table, and one that changes it.
unfoldable pub query : {A : Type 0} → (List Row → A) → M A
unfolding sql
query f = do sql; λ w. (ok (f w.rows), w)

unfoldable pub execute : (List Row → List Row) → M (Unit {0})
unfolding sql
execute f = do sql; λ w. (ok tt, record w { rows = f w.rows })

-- What holds after the first of two steps, and after the second whatever the first returned, holds
-- after both.
pub bind_keeps :
    {A B : Type 0} (P : World → Type 0) (m : M A) (f : A → M B) (w : World)
    → P (m w).1
    → ((a : A) → P (f a (m w).1).1)
    → P (◌>>=◌ m f w).1
bind_keeps {A} {B} P m f w stop go_on = go (m w).0 (m w).1 stop go_on
  where
    go :
        (r : Result A) (w' : World)
        → P w'
        → ((a : A) → P (f a w').1)
        → P (let next : Result B × World = elim r [ ok a ↦ f a w' | err e ↦ (err e, w') ] in next).1
    go (ok a) w' p q = q a
    go (err e) w' p q = p

-- What holds after the first of two steps, and after the second from what the first returned, holds
-- after both.
pub bind_result :
    {A B : Type 0} (P : World → Type 0) (m : M A) (f : A → M B) (w : World)
    → P (m w).1
    → ((a : A) → (m w).0 ≡ ok a → P (f a (m w).1).1)
    → P (◌>>=◌ m f w).1
bind_result {A} {B} P m f w stop go_on = go (m w).0 (m w).1 stop go_on
  where
    go :
        (r : Result A) (w' : World)
        → P w'
        → ((a : A) → r ≡ ok a → P (f a w').1)
        → P (let next : Result B × World = elim r [ ok a ↦ f a w' | err e ↦ (err e, w') ] in next).1
    go (ok a) w' p q = q a refl
    go (err e) w' p q = p

-- What holds after the second of two steps that succeed, holds after both.
pub bind_gives :
    {A B : Type 0} (P : World → Type 0) (m : M A) (f : A → M B) (w : World) (b : B)
    → (◌>>=◌ m f w).0 ≡ ok b
    → ((a : A) → (m w).0 ≡ ok a → (f a (m w).1).0 ≡ ok b → P (f a (m w).1).1)
    → P (◌>>=◌ m f w).1
bind_gives {A} {B} P m f w b h go_on = go (m w).0 (m w).1 h go_on
  where
    go :
        (r : Result A) (w' : World)
        → (let next : Result B × World = elim r [ ok a ↦ f a w' | err e ↦ (err e, w') ] in next).0
          ≡ ok b
        → ((a : A) → r ≡ ok a → (f a w').0 ≡ ok b → P (f a w').1)
        → P (let next : Result B × World = elim r [ ok a ↦ f a w' | err e ↦ (err e, w') ] in next).1
    go (ok a) w' h q = q a refl h
    go (err e) w' h q = cc

-- Two steps succeed only if both do.
pub bind_ok :
    {A B : Type 0} (m : M A) (f : A → M B) (w : World) (b : B)
    → (◌>>=◌ m f w).0 ≡ ok b
    → (a : A) × ((m w).0 ≡ ok a) × ((f a (m w).1).0 ≡ ok b)
bind_ok {A} {B} m f w b h = go (m w).0 (m w).1 h
  where
    go :
        (r : Result A) (w' : World)
        → (let next : Result B × World = elim r [ ok a ↦ f a w' | err e ↦ (err e, w') ] in next).0
          ≡ ok b
        → (a : A) × (r ≡ ok a) × ((f a w').0 ≡ ok b)
    go (ok a) w' h = (a, refl, h)
    go (err e) w' h = cc

-- A step that succeeds hands on to the next.
pub bind_found :
    {A B : Type 0} (m : M A) (f : A → M B) (w : World) (a : A) (after : World)
    → m w ≡ (ok a, after)
    → ◌>>=◌ m f w ≡ f a after
bind_found {A} {B} m f w a after e =
    ap
      (λ (p : Result A × World).
        let next : Result B × World = elim p.0 [ err e ↦ (err e, p.1) | ok a ↦ f a p.1 ] in next)
      e
