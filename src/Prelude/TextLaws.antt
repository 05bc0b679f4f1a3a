-- ===== src/Prelude/TextLaws.antt =====
-- Laws of the text operations: what `strip_prefix`, `ends_with` and `len` decide.
use http_cache.Prelude.{
  ℕ, ◌+◌, ◌<◌, ◌≡◌, refl, ap, inl, inr, true, some, [], ◌∷◌, ◌++◌, arith, Bool-cases, Str, str_eq,
  str_eq_sound, str_eq_refl, len, lower, to_ascii_lowercase, strip_prefix, ends_with,
}

pub strip_prefix_sound : (p s r : Str) → strip_prefix p s ≡ some r → s ≡ p ++ r
unfolding strip_prefix
strip_prefix_sound [] s r h = ground arith
strip_prefix_sound (c ∷ p) [] r h = cc
strip_prefix_sound (c ∷ p) (d ∷ s) r h = ground (arith, strip_prefix_sound p s r)

pub strip_prefix-append : (p r : Str) → strip_prefix p (p ++ r) ≡ some r
unfolding strip_prefix
strip_prefix-append [] r = refl
strip_prefix-append (c ∷ p) r = ground (arith, strip_prefix-append p r)

pub ends_with_sound : (s t : Str) → ends_with s t ≡ true → (pre : Str) × (s ≡ pre ++ t)
unfolding ends_with
ends_with_sound [] t h = ([], str_eq_sound [] t h)
ends_with_sound (c ∷ s) t h = elim (Bool-cases (str_eq (c ∷ s) t)) [
  | inl whole ↦ ([], str_eq_sound (c ∷ s) t whole)
  | inr part ↦ let (pre, e) = ends_with_sound s t (ground arith) in (c ∷ pre, ap (◌∷◌ c) e)
]

ends_with_self : (t : Str) → ends_with t t ≡ true
unfolding ends_with
ends_with_self [] = str_eq_refl []
ends_with_self (c ∷ t) = ground (arith, str_eq_refl (c ∷ t))

pub ends_with-append : (pre t : Str) → ends_with (pre ++ t) t ≡ true
unfolding ends_with
ends_with-append [] t = ends_with_self t
ends_with-append (c ∷ pre) t = ground (arith, ends_with-append pre t)

pub len-append : (s t : Str) → len (s ++ t) ≡ len s + len t
unfolding len
len-append [] t = omega arith
len-append (c ∷ s) t = omega (arith, len-append s t)

pub len-cons_pos : (c : ℕ) (s : Str) → 0 < len (c ∷ s)
unfolding len
len-cons_pos c s = ground arith

pub len-nil : len [] ≡ 0
unfolding len
len-nil = refl

pub lower_idem : (c : ℕ) → lower (lower c) ≡ lower c
unfolding lower
lower_idem c = ground arith

-- Lower case is reached in one step.
pub to_ascii_lowercase_idem :
    (s : Str) → to_ascii_lowercase (to_ascii_lowercase s) ≡ to_ascii_lowercase s
unfolding to_ascii_lowercase
to_ascii_lowercase_idem [] = refl
to_ascii_lowercase_idem (c ∷ s) = cc (lower_idem c, to_ascii_lowercase_idem s)
