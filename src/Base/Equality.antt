-- ===== src/Base/Equality.antt =====
-- Go's comparable types: `==` by instances. A string is the list of its bytes.
use Prim.Native.Nat.{ℕ}
use mathlib.Core.Path.{◌≡◌, refl}
use mathlib.Core.Logic.{◌↔◌, ◌≢◌}
use mathlib.Core.Bool.{Bool, true, false, ◌&&◌}
use mathlib.Core.List.{List, [], ◌∷◌}
use native.Mathlib.Omega.{arith}
use turborg.Base.Tests.{nat_beq, nat_beq_iff}

pub record Comparable {ℓ} (A : Type ℓ) : Type ℓ where
  pub equal : A → A → Bool
  pub equal_iff : (a b : A) → (equal a b ≡ true) ↔ (a ≡ b)

infix 50 ◌==◌
abbrev pub ◌==◌ {ℓ} : {A : Type ℓ} ⦃e : Comparable A⦄ → A → A → Bool
◌==◌ ⦃e⦄ = e.equal

abbrev pub Str : Type 0
Str = List ℕ

unfoldable pub str_beq : Str → Str → Bool
str_beq [] [] = true
str_beq [] (d ∷ t) = false
str_beq (c ∷ s) [] = false
str_beq (c ∷ s) (d ∷ t) = nat_beq c d && str_beq s t

pub str_beq_iff : (s t : Str) → (str_beq s t ≡ true) ↔ (s ≡ t)
unfolding str_beq
str_beq_iff [] [] = ground arith
str_beq_iff [] (d ∷ t) = ground arith
str_beq_iff (c ∷ s) [] = ground arith
str_beq_iff (c ∷ s) (d ∷ t) = ground (arith, str_beq_iff s t)

-- To tell two concrete strings apart, by `refl`.
pub str_ne : (s t : Str) → str_beq s t ≡ false → s ≢ t
str_ne s t h e = ground (arith, str_beq_iff s t)

instance abbrev pub nat_eq : Comparable ℕ
nat_eq = record { equal = nat_beq; equal_iff = nat_beq_iff }

instance abbrev pub str_eq : Comparable Str
str_eq = record { equal = str_beq; equal_iff = str_beq_iff }

module _ {ℓ} {A : Type ℓ} ⦃e : Comparable A⦄ where
  pub beq_refl : (a : A) → (a == a) ≡ true
  beq_refl a = (e.equal_iff a a).1 refl

  pub beq_symm : (a b : A) → (a == b) ≡ (b == a)
  beq_symm a b = ground (arith, e.equal_iff a b, e.equal_iff b a)

  pub ne→beq : (a b : A) → a ≢ b → (a == b) ≡ false
  ne→beq a b h = ground (arith, e.equal_iff a b)
