-- ===== src/Common/Text.antt =====
-- What the source uses of Go's package strings, on the bytes of a string.
use Prim.Native.Nat.{ℕ, suc, ◌+◌}
use mathlib.Core.Path.{◌≡◌, refl, ap}
use mathlib.Core.Bool.{Bool, true, false, ◌&&◌, ◌||◌}
use mathlib.Core.List.{List, [], ◌∷◌, ◌++◌}
use native.Mathlib.Omega.{arith}
use ddbr.Common.Tests.{nat_eq, if◌then◌else◌}
use ddbr.Common.Lists.{length}
use ddbr.Common.Eq.{Str}

-- strings.HasPrefix(s, p)
unfoldable pub has_prefix : Str → Str → Bool
has_prefix s [] = true
has_prefix [] (c ∷ p) = false
has_prefix (d ∷ s) (c ∷ p) = nat_eq d c && has_prefix s p

-- strings.Contains(s, p)
unfoldable pub contains : Str → Str → Bool
unfolding has_prefix
contains [] p = has_prefix [] p
contains (c ∷ s) p = has_prefix (c ∷ s) p || contains s p

abbrev pub push_head : ℕ → List Str → List Str
push_head x [] = (x ∷ []) ∷ []
push_head x (p ∷ ps) = (x ∷ p) ∷ ps

-- strings.Split(s, sep), for a separator of one byte
unfoldable pub split : ℕ → Str → List Str
split c [] = [] ∷ []
split c (x ∷ s) = if nat_eq x c then [] ∷ split c s else push_head x (split c s)

-- How often a byte stands in a string, the part before its first occurrence, and whether it occurs.
unfoldable pub occurrences : ℕ → Str → ℕ
occurrences c [] = 0
occurrences c (x ∷ s) = if nat_eq x c then suc (occurrences c s) else occurrences c s

unfoldable pub before : ℕ → Str → Str
before c [] = []
before c (x ∷ s) = if nat_eq x c then [] else x ∷ before c s

abbrev pub Free : ℕ → Str → Type 0
Free c s = occurrences c s ≡ 0

pub length-split : (c : ℕ) (s : Str) → length (split c s) ≡ suc (occurrences c s)
unfolding split occurrences
length-split c [] = refl
length-split c (x ∷ s) = ground (arith, length-split c s)

pub occurrences-append :
    (c : ℕ) (s t : Str) → occurrences c (s ++ t) ≡ occurrences c s + occurrences c t
unfolding occurrences
occurrences-append c [] t = omega arith
occurrences-append c (x ∷ s) t = ground (arith, occurrences-append c s t)

-- The parts of `s` separator `t`, where `s` holds no separator.
pub split-append : (c : ℕ) (s t : Str) → Free c s → split c (s ++ c ∷ t) ≡ s ∷ split c t
unfolding split occurrences
split-append c [] t h = ground arith
split-append c (x ∷ s) t h = ground (arith, split-append c s t)

pub split-Free : (c : ℕ) (s : Str) → Free c s → split c s ≡ s ∷ []
unfolding split occurrences
split-Free c [] h = refl
split-Free c (x ∷ s) h = ground (arith, split-Free c s)

-- The first part ends at the first separator.
pub head-split : (c : ℕ) (s : Str) → (ps : List Str) × (split c s ≡ before c s ∷ ps)
unfolding split before
head-split c [] = ([], refl)
head-split c (x ∷ s) = go (nat_eq x c) (split c s) (head-split c s)
  where
    go :
        (b : Bool) (q : List Str)
        → (ps : List Str) × (q ≡ before c s ∷ ps)
        → (ps : List Str) × ((if b then [] ∷ q else push_head x q)
            ≡ (if b then [] else x ∷ before c s) ∷ ps)
    go true q h = (q, refl)
    go false q (ps, e) = (ps, ap (push_head x) e)

pub before-append : (c : ℕ) (s t : Str) → Free c s → before c (s ++ c ∷ t) ≡ s
unfolding before occurrences
before-append c [] t h = ground arith
before-append c (x ∷ s) t h = ground (arith, before-append c s t)
