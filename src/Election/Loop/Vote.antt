-- ===== src/Election/Loop/Vote.antt =====
-- What a section does to the term and the vote of a node (ddbr-server/infra/raft_state_machine.go),
-- with the vote request that the loop may be handling.
use ddbr.Common.{◌-◌, ◌≡◌, ◌≢◌, sym, subst, ◌⊎◌, Option, none, some, arith, if◌then◌else◌}
use ddbr.Common.Int.{ℤ, pos, negsuc, two_63, ◌<ℤ◌, ◌≤ℤ◌, InRange}
use ddbr.Election.{RaftStateMachine}
use ddbr.Election.Loop.{
  raising, deciding, granting, Output, silent, voted, started, answered, goes_on,
}
use ddbr.Election.Loop.Order.{Handling, handling_after}

-- The vote that a section gives: its term and the candidate. A candidate votes for itself.
abbrev pub vote_of : Output → Option (ℤ × ℤ)
vote_of silent = none
vote_of (voted channel req resp) =
    if resp.vote_granted then some (resp.term, req.candidate_id) else none
vote_of (started term candidate reqs) = some (term, candidate)
vote_of (answered resp) = none
vote_of (goes_on s) = none

-- The term can go up by one.
abbrev pub HasNext : RaftStateMachine → Type 0
HasNext sm = InRange sm.current_term × (sm.current_term <ℤ pos (two_63 - 1))

-- The node has given its vote in `t` to `c`, and now is in that term with that vote, or past it.
abbrev pub Voted : ℤ → ℤ → RaftStateMachine → Type 0
Voted t c sm = (t <ℤ sm.current_term) ⊎ ((sm.current_term ≡ t) × (sm.voted_for ≡ c))

-- The term that a request's handler goes by is not above the node's.
abbrev pub IsReached : Handling → RaftStateMachine → Type 0
IsReached none sm = Unit {0}
IsReached (some (raising channel req)) sm = Unit {0}
IsReached (some (deciding channel req term)) sm = term ≤ℤ sm.current_term
IsReached (some (granting channel req term)) sm = term ≤ℤ sm.current_term

-- What is left of a request gives no other vote than `c` in the term `t`.
abbrev pub Respects : ℤ → ℤ → Handling → Type 0
Respects t c none = Unit {0}
Respects t c (some (raising channel req)) = t <ℤ req.term
Respects t c (some (deciding channel req term)) = t <ℤ term
Respects t c (some (granting channel req term)) =
    (t <ℤ term) ⊎ ((term ≡ t) × (req.candidate_id ≡ c))

-- The term goes up, or stays and the vote with it.
abbrev pub Follows : RaftStateMachine → RaftStateMachine → Type 0
Follows s t =
    (s.current_term <ℤ t.current_term)
    ⊎ ((s.current_term ≡ t.current_term) × (s.voted_for ≡ t.voted_for))

-- How a section goes on from a state and a handling: the handler's term stays reached; a vote that
-- was given, and is respected by what is left of the request, is kept and respected again; and a
-- vote that the section gives agrees with it, and is kept and respected from now on.
pub record Advances (h : Handling) (sm : RaftStateMachine) (o : Output) (sm' : RaftStateMachine)
    : Type 0 where
  pub reached : IsReached (handling_after h o) sm'
  pub keeps :
      (t c : ℤ)
      → c ≢ negsuc 0
      → Voted t c sm
      → Respects t c h
      → Voted t c sm' × Respects t c (handling_after h o)
  pub gives :
      (t c : ℤ) → vote_of o ≡ some (t, c) → Voted t c sm' × Respects t c (handling_after h o)
  pub agrees :
      (t c c' : ℤ)
      → c ≢ negsuc 0
      → Voted t c sm
      → Respects t c h
      → vote_of o ≡ some (t, c')
      → c' ≡ c

Voted-Follows : (t c : ℤ) (s s' : RaftStateMachine) → Voted t c s → Follows s s' → Voted t c s'
Voted-Follows t c s s' v f = ground arith

IsReached-Follows :
    (h : Handling) (s s' : RaftStateMachine) → IsReached h s → Follows s s' → IsReached h s'
IsReached-Follows none s s' r f = tt
IsReached-Follows (some (raising channel req)) s s' r f = tt
IsReached-Follows (some (deciding channel req term)) s s' r f = ground arith
IsReached-Follows (some (granting channel req term)) s s' r f = ground arith

-- A section that gives no vote and leaves the handling alone.
pub Follows-Advances :
    (h : Handling) (s s' : RaftStateMachine) (o : Output)
    → handling_after h o ≡ h
    → vote_of o ≡ none
    → IsReached h s
    → Follows s s'
    → Advances h s o s'
Follows-Advances h s s' o same silent_vote r f = record {
  reached = subst (λ k. IsReached k s') (sym same) (IsReached-Follows h s s' r f);
  keeps = λ t c n v k. (Voted-Follows t c s s' v f, subst (Respects t c) (sym same) k);
  gives = λ t c e. absurd (ground (arith, e, silent_vote));
  agrees = λ t c c' n v k e. absurd (ground (arith, e, silent_vote));
}
