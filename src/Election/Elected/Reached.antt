-- ===== src/Election/Elected/Reached.antt =====
-- Where an execution stands, and the votes that it has from there on
-- (ddbr-server/infra/raft_state_machine.go).
use ddbr.Common.{
  ℕ, suc, ◌≡◌, ◌≢◌, refl, sym, subst, true, List, [], ◌∷◌, ◌++◌, Option, none, some, arith,
}
use ddbr.Common.Eq.{Str, int_Eq}
use ddbr.Common.Int.{ℤ, pos, ◌+ℤ◌, eqb_ℤ_iff}
use ddbr.Election.{RaftStateMachine, leader, start_election}
use ddbr.Election.Append.{UnmarshalEntry}
use ddbr.Election.Cluster.{Execution, has_vote, voters}
use ddbr.Election.Leader.{Expired, is_leader-not}
use ddbr.Election.Loop.{Input, timer, timer_fired, elect, step}
use ddbr.Election.Loop.Order.{Handling, section_of, handling_after}
use ddbr.Election.Loop.Vote.{vote_of}
use ddbr.Election.Loop.Safety.{votes_from, cons_vote}

-- Where an execution stands after some inputs
unfoldable pub reached :
    UnmarshalEntry → Handling → List Input → RaftStateMachine → Handling × RaftStateMachine
unfolding section_of step
reached u h [] sm = (h, sm)
reached u h (i ∷ is) sm = elim (section_of h i) [
  | none ↦ reached u h is sm
  | some j ↦ let (out, sm') = step u j sm in reached u (handling_after h out) is sm'
]

has_vote-cons_vote :
    (t c : ℤ) (v : Option (ℤ × ℤ)) (vs : List (ℤ × ℤ))
    → has_vote t c vs ≡ true
    → has_vote t c (cons_vote v vs) ≡ true
unfolding has_vote
has_vote-cons_vote t c none vs h = h
has_vote-cons_vote t c (some (t', c')) vs h = ground (arith, h)

-- A vote that is given after some inputs is given in the whole execution.
pub has_vote-append :
    (u : UnmarshalEntry) (t c : ℤ) (is js : List Input) (h : Handling) (sm : RaftStateMachine)
    → has_vote t c (votes_from u (reached u h is sm).0 js (reached u h is sm).1) ≡ true
    → has_vote t c (votes_from u h (is ++ js) sm) ≡ true
unfolding votes_from reached
has_vote-append u t c [] js h sm g = g
has_vote-append u t c (i ∷ is) js h sm g =
    go (λ k s. has_vote-append u t c is js k s) (section_of h i) g
  where
    go :
        ((k : Handling) (s : RaftStateMachine)
          → has_vote t c (votes_from u (reached u k is s).0 js (reached u k is s).1) ≡ true
          → has_vote t c (votes_from u k (is ++ js) s) ≡ true)
        → (o : Option Input)
        → (let p : Handling × RaftStateMachine = elim o [
          | none ↦ reached u h is sm
          | some j ↦ let (out, sm') = step u j sm in reached u (handling_after h out) is sm'
        ] in
            has_vote t c (votes_from u p.0 js p.1) ≡ true)
        → has_vote t c (elim o [
          | none ↦ votes_from u h (is ++ js) sm
          | some j ↦
              let (out, sm') = step u j sm in
              cons_vote (vote_of out) (votes_from u (handling_after h out) (is ++ js) sm')
        ])
          ≡ true
    go ih none x = ih h sm x
    go ih (some j) x =
        let (out, sm') = step u j sm in
        has_vote-cons_vote t c (vote_of out) (votes_from u (handling_after h out) (is ++ js) sm')
          (ih (handling_after h out) sm' x)

-- A node that votes for a candidate is one of its voters.
pub voters-member :
    (t c : ℤ) (front back : List Execution) (own : Execution)
    → has_vote t c (votes_from own.unmarshal none own.inputs own.start) ≡ true
    → voters t c (front ++ own ∷ back) ≡ suc (voters t c (front ++ back))
unfolding voters
voters-member t c [] back own h = rw h refl
voters-member t c (e ∷ front) back own h = ground (arith, voters-member t c front back own h)

timer_fired-vote :
    (now : ℕ) (p : Str) (ps : List Str) (sm : RaftStateMachine)
    → sm.state ≢ leader
    → sm.peers ≡ p ∷ ps
    → Expired now sm
    → vote_of (timer_fired now sm).0 ≡ some (sm.current_term +ℤ pos 1, sm.node_id)
unfolding timer_fired elect start_election
timer_fired-vote now p ps sm n e h = rw (is_leader-not sm.state n, h, e) refl

-- The candidate's vote for itself
pub timer-has_vote :
    (u : UnmarshalEntry) (now : ℕ) (p : Str) (ps : List Str) (is : List Input)
    (sm : RaftStateMachine)
    → sm.state ≢ leader
    → sm.peers ≡ p ∷ ps
    → Expired now sm
    → has_vote (sm.current_term +ℤ pos 1) sm.node_id (votes_from u none (timer now ∷ is) sm) ≡ true
unfolding votes_from has_vote
timer-has_vote u now p ps is sm n e h =
    let term = sm.current_term +ℤ pos 1 in
    let (out, sm') = step u (timer now) sm in
    subst
      (λ v.
        has_vote term sm.node_id (cons_vote v (votes_from u (handling_after none out) is sm'))
        ≡ true)
      (sym (timer_fired-vote now p ps sm n e h))
      (ground (arith, eqb_ℤ_iff term term, eqb_ℤ_iff sm.node_id sm.node_id))
