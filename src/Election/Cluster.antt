-- ===== src/Election/Cluster.antt =====
-- The votes of all the nodes of a cluster (ddbr-server/infra/raft_state_machine.go), each with an
-- execution of its own.
use ddbr.Common.{
  ℕ, suc, ◌+◌, ◌*◌, ◌≤◌, ◌<◌, ◌≡◌, ◌≢◌, ◌⊎◌, inl, inr, Bool, true, false, ◌&&◌, ◌||◌, List, [], ◌∷◌,
  length, arith, if◌then◌else◌, Bool-cases, sym, subst, ◌∙◌,
}
use ddbr.Common.Eq.{int_Eq, ◌==◌}
use ddbr.Common.Int.{ℤ, eqb_ℤ_iff}
use ddbr.Election.{RaftStateMachine}
use ddbr.Election.Append.{UnmarshalEntry}
use ddbr.Election.Loop.{Input}
use ddbr.Election.Loop.Safety.{votes, OneEach, Agrees, AllHaveNext, AreNamed, votes-OneEach}

pub record Execution : Type 0 where
  pub unmarshal : UnmarshalEntry
  pub start : RaftStateMachine
  pub inputs : List Input

abbrev given : Execution → List (ℤ × ℤ)
given e = votes e.unmarshal e.inputs e.start

-- A vote for `c` in the term `t` is in the list.
unfoldable pub has_vote : ℤ → ℤ → List (ℤ × ℤ) → Bool
has_vote t c [] = false
has_vote t c ((t', c') ∷ vs) = t' == t && c' == c || has_vote t c vs

-- The nodes that vote for `c` in the term `t`.
unfoldable pub voters : ℤ → ℤ → List Execution → ℕ
unfolding has_vote
voters t c [] = 0
voters t c (e ∷ es) = let n = voters t c es in if has_vote t c (given e) then suc n else n

-- Every execution keeps its term below the greatest int64 and votes for no candidate called -1.
abbrev pub AreSound : List Execution → Type 0
AreSound [] = Unit {0}
AreSound (e ∷ es) = AllHaveNext e.unmarshal e.inputs e.start × AreNamed (given e) × AreSound es

has_vote-cases :
    (t d t' c' : ℤ) (vs : List (ℤ × ℤ))
    → has_vote t d ((t', c') ∷ vs) ≡ true
    → ((t' ≡ t) × (c' ≡ d)) ⊎ (has_vote t d vs ≡ true)
unfolding has_vote
has_vote-cases t d t' c' vs h = ground (arith, h, eqb_ℤ_iff t' t, eqb_ℤ_iff c' d)

Agrees-has_vote : (t c d : ℤ) (vs : List (ℤ × ℤ)) → Agrees t c vs → has_vote t d vs ≡ true → d ≡ c
unfolding has_vote
Agrees-has_vote t c d [] a h = absurd (ground arith)
Agrees-has_vote t c d ((t', c') ∷ vs) (a, b) h = elim (has_vote-cases t d t' c' vs h) [
  | inl (x, y) ↦ sym y ∙ a x
  | inr k ↦ Agrees-has_vote t c d vs b k
]

OneEach-has_vote :
    (t c d : ℤ) (vs : List (ℤ × ℤ))
    → OneEach vs
    → has_vote t c vs ≡ true
    → has_vote t d vs ≡ true
    → c ≡ d
unfolding has_vote
OneEach-has_vote t c d [] o h k = absurd (ground arith)
OneEach-has_vote t c d ((t', c') ∷ vs) (a, o) h k = elim (has_vote-cases t c t' c' vs h) [
  | inl (x, y) ↦ elim (has_vote-cases t d t' c' vs k) [
    | inl (z, w) ↦ sym y ∙ w
    | inr l ↦ sym y ∙ sym (Agrees-has_vote t c' d vs (subst (λ r. Agrees r c' vs) x a) l)
  ]
  | inr l ↦ elim (has_vote-cases t d t' c' vs k) [
    | inl (z, w) ↦ Agrees-has_vote t c' c vs (subst (λ r. Agrees r c' vs) z a) l ∙ w
    | inr m ↦ OneEach-has_vote t c d vs o l m
  ]
]

voters-length :
    (t c d : ℤ) (es : List Execution)
    → AreSound es
    → c ≢ d
    → voters t c es + voters t d es ≤ length es
unfolding voters
voters-length t c d [] s n = omega arith
voters-length t c d (e ∷ es) (h, m, s) n =
    let ih = voters-length t c d es s n in
    let o = votes-OneEach e.unmarshal e.inputs e.start h m in
    elim (Bool-cases (has_vote t c (given e))) [
      | inl x ↦ elim (Bool-cases (has_vote t d (given e))) [
        | inl y ↦ absurd (n (OneEach-has_vote t c d (given e) o x y))
        | inr y ↦ rw (x, y) (omega (arith, ih))
      ]
      | inr x ↦ elim (Bool-cases (has_vote t d (given e))) [
        | inl y ↦ rw (x, y) (omega (arith, ih))
        | inr y ↦ rw (x, y) (omega (arith, ih))
      ]
    ]

-- Two candidates of one term that each have the votes of more than half of the nodes are the same
-- candidate, whatever each node's execution is; the terms stay below the greatest int64, and no
-- candidate has the id -1.
pub voters-majority :
    (t c d : ℤ) (es : List Execution)
    → AreSound es
    → length es < 2 * voters t c es
    → length es < 2 * voters t d es
    → c ≡ d
voters-majority t c d es s a b = elim (Bool-cases (c == d)) [
  | inl e ↦ (eqb_ℤ_iff c d).0 e
  | inr e ↦
      let n : c ≢ d = λ q. ground (arith, e, q, eqb_ℤ_iff c d) in
      absurd (omega (arith, a, b, voters-length t c d es s n))
]
