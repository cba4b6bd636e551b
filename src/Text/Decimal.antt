-- ===== src/Text/Decimal.antt =====
-- The decimal digits of a number, as `format!("{n}")` writes them, and reading them back.
use glopfile.Base.{
  ℕ, zero, suc, ◌+◌, ◌/◌, ◌%◌, ◌<◌, ◌≡◌, refl, [], ◌∷◌, some, true, arith, ltb, if◌then◌else◌,
  u64_mod, ◌∙◌, All,
}
use glopfile.Text.{Text, parse_digits, parse_u64, is_digit}

-- The digits of `n` before those written so far.
digits : ℕ → ℕ → Text → Text
digits zero n acc = acc
digits (suc fuel) n acc =
    let more = digits fuel (n / 10) ((b'0' + n % 10) ∷ acc) in
    if ltb n 10 then (b'0' + n) ∷ acc else more

-- As many rounds as the number is large are more than enough.
unfoldable pub show : ℕ → Text
unfolding digits
show n = digits (suc n) n []

parse_digits-digits :
    (fuel n : ℕ) (acc : Text)
    → n < fuel
    → n < u64_mod
    → parse_digits 0 (digits fuel n acc) ≡ parse_digits n acc
unfolding digits parse_digits
parse_digits-digits zero n acc h b = elim h [ ]
parse_digits-digits (suc fuel) n acc h b =
    ground (arith, parse_digits-digits fuel (n / 10) ((b'0' + n % 10) ∷ acc))

-- Digits only.
abbrev pub AreDigits : Text → Type 0
AreDigits = All (λ c. is_digit c ≡ true)

abbrev pub IsNumeral : Text → Type 0
IsNumeral [] = ⊥
IsNumeral (c ∷ s) = AreDigits (c ∷ s)

digits-IsNumeral : (fuel n : ℕ) (acc : Text) → IsNumeral acc → IsNumeral (digits fuel n acc)
unfolding digits
digits-IsNumeral zero n acc h = h
digits-IsNumeral (suc fuel) n [] h = absurd h
digits-IsNumeral (suc fuel) n (c ∷ acc) h =
    ground (arith, digits-IsNumeral fuel (n / 10) ((b'0' + n % 10) ∷ c ∷ acc))

pub show-IsNumeral : (n : ℕ) → IsNumeral (show n)
unfolding show
show-IsNumeral n = ground (arith, digits-IsNumeral n (n / 10) ((b'0' + n % 10) ∷ []))

pub show-AreDigits : (n : ℕ) → AreDigits (show n)
show-AreDigits n = whole (show n) (show-IsNumeral n)
  where
    whole : (s : Text) → IsNumeral s → AreDigits s
    whole [] h = tt
    whole (c ∷ s) h = h

parse_u64_of_IsNumeral : (s : Text) → IsNumeral s → parse_u64 s ≡ parse_digits 0 s
unfolding parse_u64
parse_u64_of_IsNumeral [] h = absurd h
parse_u64_of_IsNumeral (c ∷ s) h = ground arith

-- A `u64` that is written in decimal is read back.
pub parse_u64-show : (n : ℕ) → n < u64_mod → parse_u64 (show n) ≡ some n
unfolding show
parse_u64-show n h =
    parse_u64_of_IsNumeral (show n) (show-IsNumeral n)
    ∙ parse_digits-digits (suc n) n [] (omega arith) h
    ∙ unfold parse_digits in refl
