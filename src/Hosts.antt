-- ===== src/Hosts.antt =====
-- Host lists without repetition: ddbr-gateway/repo/sever_repo.go and ddbr-server/repo/meta_data.go
-- keep one each, and ddbr-server/service/heart_service.go searches one.
use ddbr.Common.{
  ◌≡◌, refl, inl, inr, Bool-cases, Bool, false, ◌||◌, List, [], ◌∷◌, ◌++◌, arith, if◌then◌else◌,
}
use ddbr.Common.Eq.{Str, ◌==◌, str_Eq, str_eq_iff}

-- contains(slice, item)
unfoldable pub contains : List Str → Str → Bool
contains [] item = false
contains (s ∷ slice) item = s == item || contains slice item

-- A host goes to the end of the list, unless the list has it.
unfoldable pub add_host : Str → List Str → List Str
unfolding contains
add_host host hosts = if contains hosts host then hosts else hosts ++ host ∷ []

abbrev pub Distinct : List Str → Type 0
Distinct [] = Unit {0}
Distinct (s ∷ slice) = (contains slice s ≡ false) × Distinct slice

pub contains-append :
    (xs : List Str) (y item : Str) → contains (xs ++ y ∷ []) item ≡ (contains xs item || y == item)
unfolding contains
contains-append [] y item = ground arith
contains-append (x ∷ xs) y item = ground (arith, contains-append xs y item)

pub Distinct-append :
    (xs : List Str) (y : Str) → contains xs y ≡ false → Distinct xs → Distinct (xs ++ y ∷ [])
unfolding contains
Distinct-append [] y h d = (refl, tt)
Distinct-append (x ∷ xs) y h d = (
  ground (arith, contains-append xs y x, str_eq_iff x y, str_eq_iff y x),
  Distinct-append xs y (ground arith) d.1,
)

pub add_host-Distinct :
    (host : Str) (hosts : List Str) → Distinct hosts → Distinct (add_host host hosts)
unfolding add_host
add_host-Distinct host hosts d = elim (Bool-cases (contains hosts host)) [
  | inl old ↦ rw old d
  | inr new ↦ rw new (Distinct-append hosts host new d)
]

pub contains-add_host :
    (host item : Str) (hosts : List Str)
    → contains (add_host host hosts) item ≡ (contains hosts item || host == item)
unfolding add_host
contains-add_host host item hosts =
    ground (arith, str_eq_iff host item, contains-append hosts host item)
