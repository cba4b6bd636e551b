-- ===== src/Text/Split.antt =====
-- Laws of the operations of `Text`.
use mathlib.Core.List.{reverse, reverse-reverse}
use glopfile.Base.{
  ℕ, ◌≡◌, refl, ◌↔◌, true, false, [], ◌∷◌, ◌++◌, none, some, arith, ◌==◌, All, All-reverse,
}
use glopfile.Text.{
  Text, text_eq, strip_prefix, contains, split_once, rsplit_once, trim, trim_start, is_space,
}

pub text_eq_iff : (s t : Text) → (text_eq s t ≡ true) ↔ (s ≡ t)
text_eq_iff [] [] = ground arith
text_eq_iff [] (y ∷ t) = ground arith
text_eq_iff (x ∷ s) [] = ground arith
text_eq_iff (x ∷ s) (y ∷ t) = ground (arith, text_eq_iff s t)

-- The character does not occur.
abbrev pub Lacks : ℕ → Text → Type 0
Lacks x = All (λ c. (c == x) ≡ false)

abbrev pub LacksSpace : Text → Type 0
LacksSpace = All (λ c. is_space c ≡ false)

pub strip_prefix-append : (p s : Text) → strip_prefix p (p ++ s) ≡ some s
unfolding strip_prefix
strip_prefix-append [] s = refl
strip_prefix-append (c ∷ p) s = ground (arith, strip_prefix-append p s)

pub contains_of_Lacks : (x : ℕ) (s : Text) → Lacks x s → contains x s ≡ false
unfolding contains
contains_of_Lacks x [] h = refl
contains_of_Lacks x (c ∷ s) h = ground (arith, contains_of_Lacks x s)

pub split_once-append : (x : ℕ) (s t : Text) → Lacks x s → split_once x (s ++ x ∷ t) ≡ some (s, t)
unfolding split_once
split_once-append x [] t h = ground arith
split_once-append x (c ∷ s) t h = ground (arith, split_once-append x s t)

rsplit_once_of_Lacks : (x : ℕ) (s : Text) → Lacks x s → rsplit_once x s ≡ none
unfolding rsplit_once
rsplit_once_of_Lacks x [] h = refl
rsplit_once_of_Lacks x (c ∷ s) h = ground (arith, rsplit_once_of_Lacks x s)

pub rsplit_once-append : (x : ℕ) (s t : Text) → Lacks x t → rsplit_once x (s ++ x ∷ t) ≡ some (s, t)
unfolding rsplit_once
rsplit_once-append x [] t h = ground (arith, rsplit_once_of_Lacks x t)
rsplit_once-append x (c ∷ s) t h = ground (arith, rsplit_once-append x s t)

trim_start_of_LacksSpace : (s : Text) → LacksSpace s → trim_start s ≡ s
unfolding trim_start
trim_start_of_LacksSpace [] h = refl
trim_start_of_LacksSpace (c ∷ s) h = ground arith

pub trim_of_LacksSpace : (s : Text) → LacksSpace s → trim s ≡ s
unfolding trim
trim_of_LacksSpace s h =
    rw
      (
        trim_start_of_LacksSpace s h,
        trim_start_of_LacksSpace (reverse s) (All-reverse (λ c. is_space c ≡ false) s h),
      )
      (reverse-reverse s)
