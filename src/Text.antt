-- ===== src/Text.antt =====
-- The operations of Rust's `str` that the program uses on headers, URLs and status lines. A text is
-- the list of its code points; the whitespace that occurs in the ASCII texts here is ASCII's.
pub mod Split
pub mod Decimal
use Prim.Native.Char.{code}
use Prim.Native.String.{String}
use mathlib.Core.List.{reverse}
use glopfile.Base.{
  ℕ, ◌+◌, ◌-◌, ◌*◌, ◌<◌, Bool, true, false, ◌&&◌, ◌||◌, List, [], ◌∷◌, ◌++◌, Option, none, some,
  ltb, leb, ◌==◌, if◌then◌else◌, u64_mod,
}

abbrev pub Text : Type 0
Text = List ℕ

-- The code points of a literal.
abbrev pub codes : String → Text
codes String.[] = []
codes (String.◌∷◌ c s) = code c ∷ codes s

abbrev pub text_eq : Text → Text → Bool
text_eq [] [] = true
text_eq (x ∷ xs) (y ∷ ys) = x == y && text_eq xs ys
text_eq _ _ = false

-- `str::strip_prefix`.
unfoldable pub strip_prefix : Text → Text → Option Text
strip_prefix [] s = some s
strip_prefix (p ∷ ps) [] = none
strip_prefix (p ∷ ps) (c ∷ s) = let rest = strip_prefix ps s in if p == c then rest else none

-- `str::contains` of a character.
unfoldable pub contains : ℕ → Text → Bool
contains x [] = false
contains x (c ∷ s) = c == x || contains x s

abbrev push_first : ℕ → Option (Text × Text) → Option (Text × Text)
push_first c none = none
push_first c (some (a, b)) = some (c ∷ a, b)

-- `str::split_once` at the first of a character.
unfoldable pub split_once : ℕ → Text → Option (Text × Text)
split_once x [] = none
split_once x (c ∷ s) = if c == x then some ([], s) else push_first c (split_once x s)

-- `str::rsplit_once`: at the last of a character.
abbrev split_here : ℕ → ℕ → Text → Option (Text × Text) → Option (Text × Text)
split_here x c s (some (a, b)) = some (c ∷ a, b)
split_here x c s none = if c == x then some ([], s) else none

unfoldable pub rsplit_once : ℕ → Text → Option (Text × Text)
rsplit_once x [] = none
rsplit_once x (c ∷ s) = split_here x c s (rsplit_once x s)

abbrev pub is_space : ℕ → Bool
is_space c = c == 32 || (leb 9 c && leb c 13)

unfoldable pub trim_start : Text → Text
trim_start [] = []
trim_start (c ∷ s) = let rest = trim_start s in if is_space c then rest else c ∷ s

-- `str::trim`.
unfoldable pub trim : Text → Text
unfolding trim_start
trim s = reverse (trim_start (reverse (trim_start s)))

abbrev pub is_digit : ℕ → Bool
is_digit c = leb b'0' c && leb c b'9'

-- The digits of a `u64` behind those read so far; `none` for another character or an overflow.
unfoldable pub parse_digits : ℕ → Text → Option ℕ
parse_digits acc [] = some acc
parse_digits acc (c ∷ s) =
    let value = acc * 10 + (c - b'0') in
    let rest = parse_digits value s in if is_digit c && ltb value u64_mod then rest else none

abbrev parse_some : Text → Option ℕ
parse_some [] = none
parse_some (c ∷ s) = parse_digits 0 (c ∷ s)

-- `str::parse::<u64>`: one `+` may stand before the digits.
unfoldable pub parse_u64 : Text → Option ℕ
unfolding parse_digits
parse_u64 [] = none
parse_u64 (c ∷ s) = if c == b'+' then parse_some s else parse_some (c ∷ s)
