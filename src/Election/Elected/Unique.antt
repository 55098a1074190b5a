-- ===== src/Election/Elected/Unique.antt =====
-- Elections of several nodes in one term (ddbr-server/infra/raft_state_machine.go), each a part of
-- an execution of the cluster.
use ddbr.Common.{
  ℕ, suc, ◌+◌, ◌*◌, ◌/◌, ◌≤◌, ◌<◌, ◌≡◌, ◌≢◌, sym, ap, ◌∙◌, subst, Bool, true, List, [], ◌∷◌, ◌++◌,
  none, arith, length, leb, if◌then◌else◌,
}
use ddbr.Common.Eq.{Str, int_Eq}
use ddbr.Common.Int.{ℤ, pos, ◌+ℤ◌}
use ddbr.Election.{RaftStateMachine, candidate, leader}
use ddbr.Election.Cluster.{Execution, AreSound, has_vote, voters, voters-majority}
use ddbr.Election.Leader.{Expired}
use ddbr.Election.Loop.{Input, timer}
use ddbr.Election.Loop.Safety.{votes_from}
use ddbr.Election.Elected.{run, answers, polls, granted, election-Decided}
use ddbr.Election.Elected.Reached.{reached, has_vote-append, voters-member, timer-has_vote}

-- The inputs of an election: the timer, the answers, and the turns of the loop
abbrev pub election : ℤ → ℕ → ℕ → List Bool → List Input
election term now later grants = timer now ∷ answers term grants (polls later grants)

-- An election for the term in an execution of the cluster `es`, by the node with the execution
-- `own`: it starts in the state `start`, when the loop waits and the queue is empty, with the timer
-- due. The grants among the answers are votes of other nodes of the cluster.
pub record Bid (term : ℤ) (es : List Execution) : Type 0 where
  pub front : List Execution
  pub own : Execution
  pub back : List Execution
  pub is_member : es ≡ front ++ own ∷ back
  pub before : List Input
  pub after : List Input
  pub now : ℕ
  pub later : ℕ
  pub grants : List Bool
  pub inputs : own.inputs ≡ before ++ (election term now later grants ++ after)
  pub start : RaftStateMachine
  pub starts : reached own.unmarshal none before own.start ≡ (none, start)
  pub first_peer : Str
  pub other_peers : List Str
  pub not_leader : start.state ≢ leader
  pub some_peers : start.peers ≡ first_peer ∷ other_peers
  pub no_events : start.events ≡ []
  pub due : Expired now start
  pub next_term : start.current_term +ℤ pos 1 ≡ term
  pub all_nodes : length start.peers + 1 ≡ length es
  pub given : granted grants ≤ voters term start.node_id (front ++ back)

-- The node after its election
abbrev pub outcome : {term : ℤ} {es : List Execution} → Bid term es → RaftStateMachine
outcome {term} b = run b.own.unmarshal (election term b.now b.later b.grants) b.start

own_vote :
    (term : ℤ) (es : List Execution) (b : Bid term es)
    → has_vote term b.start.node_id (votes_from b.own.unmarshal none b.own.inputs b.own.start)
      ≡ true
own_vote term es b =
    let is = answers term b.grants (polls b.later b.grants) ++ b.after in
    let first =
      subst
        (λ t.
          has_vote t b.start.node_id (votes_from b.own.unmarshal none (timer b.now ∷ is) b.start)
          ≡ true)
        b.next_term
        (timer-has_vote b.own.unmarshal b.now b.first_peer b.other_peers is b.start b.not_leader
          b.some_peers b.due) in
    subst
      (λ js. has_vote term b.start.node_id (votes_from b.own.unmarshal none js b.own.start) ≡ true)
      (sym b.inputs)
      (has_vote-append b.own.unmarshal term b.start.node_id b.before (timer b.now ∷ is) none
        b.own.start
        (subst
          (λ p.
            has_vote term b.start.node_id (votes_from b.own.unmarshal p.0 (timer b.now ∷ is) p.1)
            ≡ true)
          (sym b.starts) first))

if_leader : (b : Bool) → (if b then leader else candidate) ≡ leader → b ≡ true
if_leader b h = ground arith

outcome-majority :
    (term : ℤ) (es : List Execution) (b : Bid term es)
    → (outcome b).state ≡ leader
    → length es < 2 * voters term b.start.node_id es
outcome-majority term es b h =
    let d =
      election-Decided b.own.unmarshal b.now b.later b.grants b.first_peer b.other_peers b.start
        b.not_leader b.some_peers b.no_events b.due in
    let led =
      subst (λ t. (run b.own.unmarshal (election t b.now b.later b.grants) b.start).state ≡ leader)
        (sym b.next_term) h in
    let majority : leb ((length b.start.peers + 1) / 2 + 1) (granted b.grants + 1) ≡ true =
      if_leader (leb ((length b.start.peers + 1) / 2 + 1) (granted b.grants + 1)) (sym d.0 ∙ led) in
    let all : voters term b.start.node_id es
        ≡ suc (voters term b.start.node_id (b.front ++ b.back)) =
      ap (voters term b.start.node_id) b.is_member
      ∙ voters-member term b.start.node_id b.front b.back b.own (own_vote term es b) in
    ground (arith, majority, b.all_nodes, b.given, all)

-- Of two elections for one term in a cluster, each a part of a node's execution, if both make their
-- candidates leaders, the candidates are the same. Each election starts while the loop waits, with
-- an empty queue and the timer due, on a node that does not lead and whose peers and itself are as
-- many as the nodes; its inputs are the timer, the answers and the turns of the loop, one after the
-- other; and the grants that it counts are at most the votes of other nodes for it in the term. The
-- terms stay below the greatest int64, and no candidate has the id -1.
pub outcome-one_leader :
    (term : ℤ) (es : List Execution) (a b : Bid term es)
    → AreSound es
    → (outcome a).state ≡ leader
    → (outcome b).state ≡ leader
    → a.start.node_id ≡ b.start.node_id
outcome-one_leader term es a b s h k =
    voters-majority term a.start.node_id b.start.node_id es s (outcome-majority term es a h)
      (outcome-majority term es b k)
