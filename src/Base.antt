-- ===== src/Base.antt =====
-- The names that the other modules share: those of the libraries, passed on, and those of the
-- children, with the types that stand for Rust's `Result`, `ControlFlow`, `u64` and byte strings.
mod Tests
mod Lists
pub use Tests.*
pub use Lists.*
pub use Prim.Native.Nat.{ℕ, zero, suc, ◌+◌, ◌-◌, ◌*◌, ◌/◌, ◌%◌, ◌^◌, ◌≤◌, ◌<◌, min}
pub use mathlib.Core.Path.{◌≡◌, refl, sym, ap, subst, ◌∙◌}
pub use mathlib.Core.Logic.{◌≢◌, ◌↔◌, ◌⊎◌, inl, inr}
pub use mathlib.Core.Bool.{Bool, true, false, not, ◌&&◌, ◌||◌}
pub use mathlib.Core.Option.{Option, none, some}
pub use mathlib.Core.List.{List, [], ◌∷◌, ◌++◌, map, append-nil, append_assoc}
pub use native.Mathlib.Omega.{arith}

-- A byte is a number; a byte string is a list of them.
abbrev pub Bytes : Type 0
Bytes = List ℕ

-- `Result<A, E>`.
pub data Result {ℓ κ} (E : Type κ) (A : Type ℓ) : Type (ℓ ⊔ κ) where
  ok : A → Result E A
  err : E → Result E A

infixl 5 ◌>>=◌ ◌>>◌
abbrev pub ◌>>=◌ {ℓ κ ι} :
    {E : Type κ} {A : Type ℓ} {B : Type ι} → Result E A → (A → Result E B) → Result E B
ok a >>= f = f a
err e >>= f = err e

abbrev pub ◌>>◌ {ℓ κ} : {E : Type κ} {B : Type ℓ} → Result E (Unit {0}) → Result E B → Result E B
m >> k = m >>= λ _. k

-- `Option::ok_or`.
abbrev pub ok_or {ℓ κ} : {E : Type κ} {A : Type ℓ} → Option A → E → Result E A
ok_or none e = err e
ok_or (some a) e = ok a

-- `ControlFlow<B>`, with nothing to carry on with.
pub data ControlFlow {ℓ} (B : Type ℓ) : Type ℓ where
  proceed : ControlFlow B
  break : B → ControlFlow B

-- The number of values of a `u64`.
abbrev pub u64_mod : ℕ
u64_mod = 2 ^ 64

-- `a + b` on `u64` as a release build computes it: overflow wraps around.
abbrev pub add_u64 : ℕ → ℕ → ℕ
add_u64 a b = (a + b) % u64_mod

pub ControlFlow-cases {ℓ} :
    {B : Type ℓ} (c : ControlFlow B) → (c ≡ proceed) ⊎ ((b : B) × (c ≡ break b))
ControlFlow-cases proceed = inl refl
ControlFlow-cases (break b) = inr (b, refl)

-- `a - b` on `u64` as a release build computes it.
abbrev pub sub_u64 : ℕ → ℕ → ℕ
sub_u64 a b = (a + u64_mod - b) % u64_mod
