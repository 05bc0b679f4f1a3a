-- ===== src/Prelude/DecimalLaws.antt =====
-- What is printed as a decimal number is read back.
use http_cache.Prelude.Words.{u64_max}
use http_cache.Prelude.{
  Str, ℕ, ◌<◌, ◌≤◌, ◌*◌, true, arith, ◌+◌, ◌∷◌, some, suc, Bool-cases, ltb, inl, inr, ◌≡◌, Bool,
  ltb→lt, ◌/◌, [], ◌%◌, ◌∙◌, ap,
}
use http_cache.Prelude.Decimal.{parse_digits, digits_onto, parse_u64, to_decimal, is_digit}
use Prim.Native.Nat.{zero, suc}
use mathlib.Core.Bool.{false}

digits_cons :
    (a d : ℕ) (acc : Str)
    → d < 10
    → a * 10 + d ≤ u64_max
    → parse_digits a ((b'0' + d) ∷ acc) ≡ parse_digits (a * 10 + d) acc
unfolding parse_digits
digits_cons a d acc small fits = ground arith

parse_digits_last :
    (d : ℕ) (acc : Str) → d < 10 → parse_digits 0 ((b'0' + d) ∷ acc) ≡ parse_digits d acc
unfolding parse_digits
parse_digits_last d acc small = ground arith

parse_digits-digits_onto :
    (f n : ℕ) (acc : Str)
    → n < f
    → n ≤ u64_max
    → parse_digits 0 (digits_onto f n acc) ≡ parse_digits n acc
unfolding digits_onto
parse_digits-digits_onto zero n acc enough fits = absurd (omega arith)
parse_digits-digits_onto (suc f) n acc enough fits = elim (Bool-cases (ltb n 10)) [
  | inl small ↦ rw small (parse_digits_last n acc (ltb→lt n 10 small))
  | inr large ↦
      let shrinks : n / 10 < f = ground arith in
      let whole : n / 10 * 10 + n % 10 ≡ n = omega arith in
      rw large (
        parse_digits-digits_onto f (n / 10) ((b'0' + n % 10) ∷ acc) shrinks (omega arith)
        ∙ (digits_cons (n / 10) (n % 10) acc (omega arith) (omega arith)
            ∙ ap (λ m. parse_digits m acc) whole))
]

-- A text that begins with a digit is read as digits, without a sign.
first_is_digit : Str → Bool
first_is_digit [] = false
first_is_digit (c ∷ s) = is_digit c

first_is_digit-digits_onto :
    (f n : ℕ) (acc : Str) → n < f → first_is_digit (digits_onto f n acc) ≡ true
unfolding digits_onto first_is_digit
first_is_digit-digits_onto zero n acc enough = absurd (omega arith)
first_is_digit-digits_onto (suc f) n acc enough = elim (Bool-cases (ltb n 10)) [
  | inl small ↦ ground arith
  | inr large ↦
      let shrinks : n / 10 < f = ground arith in
      rw large (first_is_digit-digits_onto f (n / 10) ((b'0' + n % 10) ∷ acc) shrinks)
]

parse_u64_digits : (s : Str) → first_is_digit s ≡ true → parse_u64 s ≡ parse_digits 0 s
unfolding parse_u64 first_is_digit parse_digits
parse_u64_digits [] d = cc
parse_u64_digits (c ∷ []) d = ground arith
parse_u64_digits (c ∷ e ∷ s) d = ground arith

pub parse_u64-to_decimal : (n : ℕ) → n ≤ u64_max → parse_u64 (to_decimal n) ≡ some n
unfolding to_decimal parse_digits
parse_u64-to_decimal n fits =
    parse_u64_digits _ (first_is_digit-digits_onto (suc n) n [] (omega arith))
    ∙ parse_digits-digits_onto (suc n) n [] (omega arith) fits
