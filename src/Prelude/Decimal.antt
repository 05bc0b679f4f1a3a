-- ===== src/Prelude/Decimal.antt =====
-- Decimal numbers: `str::parse::<u64>` and the `Display` form of an unsigned integer.
use Prim.Native.Nat.{ℕ, zero, suc, ◌+◌, ◌-◌, ◌*◌, ◌/◌, ◌%◌}
use mathlib.Core.Bool.{Bool, ◌&&◌}
use mathlib.Core.List.{[], ◌∷◌}
use mathlib.Core.Option.{Option, none, some}
use http_cache.Prelude.Tests.{ltb, leb, ◌==◌, if◌then◌else◌}
use http_cache.Prelude.Texts.{Str}
use http_cache.Prelude.Words.{u64_max}

abbrev pub is_digit : ℕ → Bool
is_digit c = leb b'0' c && leb c b'9'

-- The loop of `u64::from_str`: `none` is an invalid digit or an overflow.
unfoldable pub parse_digits : ℕ → Str → Option ℕ
parse_digits acc [] = some acc
parse_digits acc (c ∷ s) =
    let rest = parse_digits (acc * 10 + (c - b'0')) s in
    if is_digit c && leb (acc * 10 + (c - b'0')) u64_max then rest else none

-- One leading `+` is accepted; an empty text, or a sign alone, is not.
unfoldable pub parse_u64 : Str → Option ℕ
unfolding parse_digits
parse_u64 [] = none
parse_u64 (c ∷ []) = if is_digit c then some (c - b'0') else none
parse_u64 (c ∷ d ∷ s) = if c == b'+' then parse_digits 0 (d ∷ s) else parse_digits 0 (c ∷ d ∷ s)

-- The decimal digits of `n` in front of `acc`, the fuel at least the number of digits.
unfoldable pub digits_onto : ℕ → ℕ → Str → Str
digits_onto zero n acc = acc
digits_onto (suc f) n acc =
    let rest = digits_onto f (n / 10) ((b'0' + n % 10) ∷ acc) in
    if ltb n 10 then (b'0' + n) ∷ acc else rest

-- `n.to_string()`; a number has no more digits than its value plus one.
unfoldable pub to_decimal : ℕ → Str
unfolding digits_onto
to_decimal n = digits_onto (suc n) n []
