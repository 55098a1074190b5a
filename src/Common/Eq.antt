-- ===== src/Common/Eq.antt =====
-- Decidable equality as an interface, for the keys of Go's maps and for strings.
use Prim.Native.Nat.{ℕ}
use mathlib.Core.Path.{◌≡◌, refl}
use mathlib.Core.Logic.{◌↔◌}
use mathlib.Core.Bool.{Bool, true, false, ◌&&◌}
use mathlib.Core.List.{List, [], ◌∷◌}
use native.Mathlib.Omega.{arith}
use Prim.Native.Char.{code}
use Prim.Native.String.{String}
use ddbr.Common.Tests.{nat_eq, nat_eq_iff}
use ddbr.Common.Int.{ℤ, eqb_ℤ, eqb_ℤ_iff}

pub record Eq {ℓ} (K : Type ℓ) : Type ℓ where
  pub same : K → K → Bool
  pub same_iff : (x y : K) → (same x y ≡ true) ↔ (x ≡ y)

infix 50 ◌==◌
abbrev pub ◌==◌ {ℓ} : {K : Type ℓ} ⦃keys : Eq K⦄ → K → K → Bool
◌==◌ {K = K} ⦃keys⦄ x y = keys.same x y

-- A Go string is its bytes.
abbrev pub Str : Type 0
Str = List ℕ

-- The bytes of an ASCII literal.
abbrev pub bytes : String → Str
bytes String.[] = []
bytes (String.◌∷◌ c s) = code c ∷ bytes s

unfoldable pub str_eq : Str → Str → Bool
str_eq [] [] = true
str_eq [] (y ∷ ys) = false
str_eq (x ∷ xs) [] = false
str_eq (x ∷ xs) (y ∷ ys) = nat_eq x y && str_eq xs ys

pub str_eq_iff : (s t : Str) → (str_eq s t ≡ true) ↔ (s ≡ t)
unfolding str_eq
str_eq_iff [] [] = (λ h. refl, λ h. refl)
str_eq_iff [] (y ∷ ys) = (λ h. cc, λ h. cc)
str_eq_iff (x ∷ xs) [] = (λ h. cc, λ h. cc)
str_eq_iff (x ∷ xs) (y ∷ ys) = ground (arith, nat_eq_iff x y, str_eq_iff xs ys)

instance abbrev pub str_Eq : Eq Str
str_Eq = record { same = str_eq; same_iff = str_eq_iff }

instance abbrev pub int_Eq : Eq ℤ
int_Eq = record { same = eqb_ℤ; same_iff = eqb_ℤ_iff }
