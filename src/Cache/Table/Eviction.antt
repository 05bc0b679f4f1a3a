-- ===== src/Cache/Table/Eviction.antt =====
-- The rows that src/cache.rs deletes to keep the table within its limit, and those it keeps.
use mathlib.Core.List.Permᴰ
use mathlib.Core.List.{Permᴰ}
use http_cache.Prelude.{
  ℕ, zero, suc, ◌≡◌, refl, sym, ap, ◌≢◌, List, [], ◌∷◌, Bool, arith, keep, Str, map, str_eq_iff,
  str_eq_refl, All, take, drop, length, ◌∙◌, subst, Bool-cases, inl, inr,
}
use http_cache.Cache.World.{Row}
use http_cache.Cache.Table.{delete_key}
use http_cache.Cache.Table.Keys.{IsFresh, HasUniqueKeys}

abbrev pub keys_of : List Row → List Str
keys_of = map (λ r. r.key)

unfoldable pub delete_keys : List Str → List Row → List Row
delete_keys [] rows = rows
delete_keys (key ∷ keys) rows = delete_keys keys (delete_key key rows)

delete_key_fresh : (key : Str) (rows : List Row) → IsFresh key rows → delete_key key rows ≡ rows
unfolding delete_key
delete_key_fresh key [] f = refl
delete_key_fresh key (r ∷ rows) f =
    ground (arith, str_eq_iff r.key key, delete_key_fresh key rows f.1)

delete_key_head :
    (r : Row) (rows : List Row) → IsFresh r.key rows → delete_key r.key (r ∷ rows) ≡ rows
unfolding delete_key
delete_key_head r rows f = rw (str_eq_refl r.key) (delete_key_fresh r.key rows f)

-- Deleting the keys of the first `n` rows leaves the others.
delete_keys-take :
    (n : ℕ) (rows : List Row)
    → HasUniqueKeys rows
    → delete_keys (keys_of (take n rows)) rows ≡ drop n rows
unfolding delete_keys
delete_keys-take zero rows u = refl
delete_keys-take (suc n) [] u = refl
delete_keys-take (suc n) (r ∷ rows) u =
    rw (delete_key_head r rows u.0, delete_keys) (delete_keys-take n rows u.1)

module _ {ℓ} {A : Type ℓ} where
  pub Permᴰ-length : {xs ys : List A} → Permᴰ xs ys → length xs ≡ length ys
  Permᴰ-length Permᴰ.nil = refl
  Permᴰ-length (Permᴰ.cons e p) = ap suc (Permᴰ-length p)
  Permᴰ-length (Permᴰ.swap e f) = refl
  Permᴰ-length (Permᴰ.trans p q) = Permᴰ-length p ∙ Permᴰ-length q

  pub Permᴰ-All {κ} : (P : A → Type κ) {xs ys : List A} → Permᴰ xs ys → All P xs → All P ys
  Permᴰ-All P Permᴰ.nil h = h
  Permᴰ-All P (Permᴰ.cons e p) h = (subst P e h.0, Permᴰ-All P p h.1)
  Permᴰ-All P (Permᴰ.swap e f) h = (subst P f h.1.0, (subst P e h.0, h.1.1))
  Permᴰ-All P (Permᴰ.trans p q) h = Permᴰ-All P q (Permᴰ-All P p h)

swap_keep :
    (p : Row → Bool) (a b : Row) (l : List Row) → Permᴰ (keep p (a ∷ b ∷ l)) (keep p (b ∷ a ∷ l))
swap_keep p a b l = elim (Bool-cases (p a)) [
  | inl a_kept ↦ elim (Bool-cases (p b)) [
    | inl b_kept ↦ rw (a_kept, b_kept) (Permᴰ.swap refl refl)
    | inr b_dropped ↦ rw (a_kept, b_dropped) (Permᴰ.refl _)
  ]
  | inr a_dropped ↦ rw a_dropped (Permᴰ.refl _)
]

Permᴰ-keep : (p : Row → Bool) {xs ys : List Row} → Permᴰ xs ys → Permᴰ (keep p xs) (keep p ys)
Permᴰ-keep p Permᴰ.nil = Permᴰ.nil
Permᴰ-keep p (Permᴰ.cons {a = a} e q) = rw (← e) (elim (Bool-cases (p a)) [
  | inl kept ↦ rw kept (Permᴰ.cons refl (Permᴰ-keep p q))
  | inr dropped ↦ rw dropped (Permᴰ-keep p q)
])
Permᴰ-keep p (Permᴰ.swap {a = a} {b = b} {l = l} e f) = rw (← e, ← f) (swap_keep p a b l)
Permᴰ-keep p (Permᴰ.trans q r) = Permᴰ.trans (Permᴰ-keep p q) (Permᴰ-keep p r)

Permᴰ-delete_keys :
    (keys : List Str) {xs ys : List Row}
    → Permᴰ xs ys
    → Permᴰ (delete_keys keys xs) (delete_keys keys ys)
unfolding delete_keys delete_key
Permᴰ-delete_keys [] p = p
Permᴰ-delete_keys (key ∷ keys) p = Permᴰ-delete_keys keys (Permᴰ-keep _ p)

pub Permᴰ-HasUniqueKeys : {xs ys : List Row} → Permᴰ xs ys → HasUniqueKeys xs → HasUniqueKeys ys
Permᴰ-HasUniqueKeys Permᴰ.nil u = u
Permᴰ-HasUniqueKeys (Permᴰ.cons {a = a} {l₂ = l₂} e p) u =
    rw (← e) (Permᴰ-All (λ r. r.key ≢ a.key) p u.0, Permᴰ-HasUniqueKeys p u.1)
Permᴰ-HasUniqueKeys (Permᴰ.swap {a = a} {b = b} {b' = b'} {l = l} e f) u =
    subst (λ x. HasUniqueKeys (x ∷ b' ∷ l)) f
      (subst (λ y. HasUniqueKeys (b ∷ y ∷ l)) e ((λ g. u.0.0 (sym g), u.1.0), (u.0.1, u.1.1)))
Permᴰ-HasUniqueKeys (Permᴰ.trans p q) u = Permᴰ-HasUniqueKeys q (Permᴰ-HasUniqueKeys p u)

-- Deleting the first rows of any order of the table leaves, up to order, the rows behind them.
pub delete_keys-drop :
    (n : ℕ) (sorted rows : List Row)
    → Permᴰ sorted rows
    → HasUniqueKeys rows
    → Permᴰ (drop n sorted) (delete_keys (keys_of (take n sorted)) rows)
delete_keys-drop n sorted rows p u =
    subst (λ l. Permᴰ l (delete_keys (keys_of (take n sorted)) rows))
      (delete_keys-take n sorted (Permᴰ-HasUniqueKeys (Permᴰ.symm p) u))
      (Permᴰ-delete_keys (keys_of (take n sorted)) p)
