-- ===== src/Election/Loop/Safety.antt =====
-- One vote in a term, over whole executions (ddbr-server/infra/raft_state_machine.go).
use ddbr.Common.{◌≡◌, ◌≢◌, ◌⊎◌, inl, inr, ap, refl, sym, subst, List, [], ◌∷◌, Option, none, some}
use ddbr.Common.Int.{ℤ, negsuc}
use ddbr.Election.{RaftStateMachine}
use ddbr.Election.Append.{UnmarshalEntry}
use ddbr.Election.Loop.{Input, step}
use ddbr.Election.Loop.Order.{
  Handling, section_of, handling_after, IsDue, AllDue, section_of-AllDue,
}
use ddbr.Election.Loop.Vote.{vote_of, HasNext, Voted, IsReached, Respects}
use ddbr.Election.Loop.Sections.{step-Advances}

abbrev pub cons_vote : Option (ℤ × ℤ) → List (ℤ × ℤ) → List (ℤ × ℤ)
cons_vote none vs = vs
cons_vote (some v) vs = v ∷ vs

-- The votes that a node gives from a point of an execution on, each with its term. An input whose
-- turn it is not does nothing.
unfoldable pub votes_from : UnmarshalEntry → Handling → List Input → RaftStateMachine → List (ℤ × ℤ)
unfolding section_of step
votes_from u h [] sm = []
votes_from u h (i ∷ is) sm = elim (section_of h i) [
  | none ↦ votes_from u h is sm
  | some j ↦
      let (out, sm') = step u j sm in
      cons_vote (vote_of out) (votes_from u (handling_after h out) is sm')
]

-- The votes of an execution that starts while the loop waits.
abbrev pub votes : UnmarshalEntry → List Input → RaftStateMachine → List (ℤ × ℤ)
votes u is sm = votes_from u none is sm

-- Throughout the execution the term can go up by one.
unfoldable pub AllHaveNextFrom : UnmarshalEntry → Handling → List Input → RaftStateMachine → Type 0
unfolding section_of step
AllHaveNextFrom u h [] sm = Unit {0}
AllHaveNextFrom u h (i ∷ is) sm = HasNext sm × elim (section_of h i) [
  | none ↦ AllHaveNextFrom u h is sm
  | some j ↦ let (out, sm') = step u j sm in AllHaveNextFrom u (handling_after h out) is sm'
]

abbrev pub AllHaveNext : UnmarshalEntry → List Input → RaftStateMachine → Type 0
AllHaveNext u is sm = AllHaveNextFrom u none is sm

-- No candidate is called -1, which stands for no vote.
abbrev pub AreNamed : List (ℤ × ℤ) → Type 0
AreNamed [] = Unit {0}
AreNamed ((t, c) ∷ vs) = (c ≢ negsuc 0) × AreNamed vs

abbrev pub Agrees : ℤ → ℤ → List (ℤ × ℤ) → Type 0
Agrees t c [] = Unit {0}
Agrees t c ((t', c') ∷ vs) = ((t' ≡ t) → (c' ≡ c)) × Agrees t c vs

-- Any two votes of one term are for one candidate.
abbrev pub OneEach : List (ℤ × ℤ) → Type 0
OneEach [] = Unit {0}
OneEach ((t, c) ∷ vs) = Agrees t c vs × OneEach vs

AreNamed-tail : (v : Option (ℤ × ℤ)) (vs : List (ℤ × ℤ)) → AreNamed (cons_vote v vs) → AreNamed vs
AreNamed-tail none vs h = h
AreNamed-tail (some (t, c)) vs h = h.1

Agrees-cons :
    (t c : ℤ) (v : Option (ℤ × ℤ)) (vs : List (ℤ × ℤ))
    → ((c' : ℤ) → v ≡ some (t, c') → c' ≡ c)
    → Agrees t c vs
    → Agrees t c (cons_vote v vs)
Agrees-cons t c none vs h a = a
Agrees-cons t c (some (t', c')) vs h a = ((λ e. h c' (ap (λ s. some (s, c')) e)), a)

section_of-cases :
    (h : Handling) (i : Input)
    → (section_of h i ≡ none) ⊎ ((j : Input) × (section_of h i ≡ some j) × IsDue h j)
section_of-cases h i = cases (section_of h i) (section_of-AllDue h i)
  where
    cases : (o : Option Input) → AllDue h o → (o ≡ none) ⊎ ((j : Input) × (o ≡ some j) × IsDue h j)
    cases none d = inl refl
    cases (some j) d = inr (j, refl, d)

-- One input of an execution, whose turn it is not or is.
votes_from-none :
    (u : UnmarshalEntry) (h : Handling) (i : Input) (is : List Input) (sm : RaftStateMachine)
    → section_of h i ≡ none
    → AllHaveNextFrom u h (i ∷ is) sm
    → (votes_from u h (i ∷ is) sm ≡ votes_from u h is sm) × AllHaveNextFrom u h is sm
unfolding votes_from AllHaveNextFrom
votes_from-none u h i is sm e (n, b) = (rw (votes_from, e) refl, rw e at b)

votes_from-some :
    (u : UnmarshalEntry) (h : Handling) (i j : Input) (is : List Input) (sm : RaftStateMachine)
    → section_of h i ≡ some j
    → AllHaveNextFrom u h (i ∷ is) sm
    → let (out, sm') = step u j sm in
      let h' = handling_after h out in
      (votes_from u h (i ∷ is) sm ≡ cons_vote (vote_of out) (votes_from u h' is sm'))
      × HasNext sm
      × AllHaveNextFrom u h' is sm'
unfolding votes_from AllHaveNextFrom
votes_from-some u h i j is sm e (n, b) = (rw (votes_from, e) refl, n, rw e at b)

votes_from-Agrees :
    (u : UnmarshalEntry) (h : Handling) (is : List Input) (sm : RaftStateMachine) (t c : ℤ)
    → c ≢ negsuc 0
    → IsReached h sm
    → Voted t c sm
    → Respects t c h
    → AllHaveNextFrom u h is sm
    → Agrees t c (votes_from u h is sm)
unfolding votes_from
votes_from-Agrees u h [] sm t c n r v k b = tt
votes_from-Agrees u h (i ∷ is) sm t c n r v k b = elim (section_of-cases h i) [
  | inl e ↦
      let (q, b') = votes_from-none u h i is sm e b in
      subst (Agrees t c) (sym q) (votes_from-Agrees u h is sm t c n r v k b')
  | inr (j, e, d) ↦
      let (q, m, b') = votes_from-some u h i j is sm e b in
      let a = step-Advances u h j sm m d r in
      let (out, sm') = step u j sm in
      let h' = handling_after h out in
      let (v', k') = a.keeps t c n v k in
      subst (Agrees t c) (sym q) (
        Agrees-cons t c (vote_of out) (votes_from u h' is sm') (λ c' x. a.agrees t c c' n v k x)
          (votes_from-Agrees u h' is sm' t c n a.reached v' k' b'))
]

OneEach-cons :
    (v : Option (ℤ × ℤ)) (vs : List (ℤ × ℤ))
    → AreNamed (cons_vote v vs)
    → ((t c : ℤ) → c ≢ negsuc 0 → v ≡ some (t, c) → Agrees t c vs)
    → OneEach vs
    → OneEach (cons_vote v vs)
OneEach-cons none vs n a o = o
OneEach-cons (some (t, c)) vs n a o = (a t c n.0 refl, o)

votes_from-OneEach :
    (u : UnmarshalEntry) (h : Handling) (is : List Input) (sm : RaftStateMachine)
    → IsReached h sm
    → AllHaveNextFrom u h is sm
    → AreNamed (votes_from u h is sm)
    → OneEach (votes_from u h is sm)
unfolding votes_from
votes_from-OneEach u h [] sm r b n = tt
votes_from-OneEach u h (i ∷ is) sm r b n = elim (section_of-cases h i) [
  | inl e ↦
      let (q, b') = votes_from-none u h i is sm e b in
      subst OneEach (sym q) (votes_from-OneEach u h is sm r b' (subst AreNamed q n))
  | inr (j, e, d) ↦
      let (q, m, b') = votes_from-some u h i j is sm e b in
      let a = step-Advances u h j sm m d r in
      let (out, sm') = step u j sm in
      let h' = handling_after h out in
      let vs = votes_from u h' is sm' in
      let named = subst AreNamed q n in
      subst OneEach (sym q) (
        OneEach-cons (vote_of out) vs named
          (λ t c x g.
            let (v, k) = a.gives t c g in votes_from-Agrees u h' is sm' t c x a.reached v k b')
          (votes_from-OneEach u h' is sm' a.reached b' (AreNamed-tail (vote_of out) vs named)))
]

-- In every execution, whatever requests, answers and timeouts come in and in whatever order, with
-- the sections of other goroutines also between those of a vote request, the votes that a node
-- gives in one term, its own candidacies included, are all for one candidate. The loop waits when
-- the execution starts, the terms stay below the greatest int64, and no candidate has the id -1.
pub votes-OneEach :
    (u : UnmarshalEntry) (is : List Input) (sm : RaftStateMachine)
    → AllHaveNext u is sm
    → AreNamed (votes u is sm)
    → OneEach (votes u is sm)
votes-OneEach u is sm b n = votes_from-OneEach u none is sm tt b n
