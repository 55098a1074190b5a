-- ===== src/Examples/Elections.antt =====
-- An example for the elections of a cluster (ddbr-server/infra/raft_state_machine.go).
use ddbr.Common.{◌≡◌, refl, true, List, [], ◌∷◌, arith}
use ddbr.Common.Eq.{bytes}
use ddbr.Common.Int.{pos, half, ◌+ℤ◌}
use ddbr.Election.{RaftStateMachine}
use ddbr.Election.Loop.{timer}
use ddbr.Election.Loop.Vote.{HasNext}
use ddbr.Election.Cluster.{Execution, AreSound, voters}
use ddbr.Election.Elected.Unique.{Bid, election, outcome-one_leader}
use ddbr.Examples.Election.{node}
use ddbr.Examples.Members.{no_text, voter}

-- The node 8 holds an election, and two others vote for it.
abbrev standing : RaftStateMachine
standing = record node { node_id = pos 8 }

abbrev candidate_8 : Execution
candidate_8 = record {
  unmarshal = no_text;
  start = standing;
  inputs = election (pos 4) 900 901 (true ∷ true ∷ []);
}

abbrev nodes : List Execution
nodes = candidate_8 ∷ voter ∷ voter ∷ []

nodes-AreSound : AreSound nodes
unfolding ddbr.Election.Loop.Safety.votes_from ddbr.Election.Loop.Safety.AllHaveNextFrom half ◌+ℤ◌
nodes-AreSound =
    let three : HasNext node = ((omega arith, omega arith), omega arith) in
    let four : HasNext (record node { current_term = pos 4 }) =
      ((omega arith, omega arith), omega arith) in
    (
      (three, (four, (four, (four, (four, (four, tt)))))),
      ((λ e. ground (arith, e)), tt),
      (
        (three, (three, (three, (four, (four, tt))))),
        ((λ e. ground (arith, e)), tt),
        ((three, (three, (three, (four, (four, tt))))), ((λ e. ground (arith, e)), tt), tt),
      ),
    )

bid : Bid (pos 4) nodes
unfolding voters ddbr.Election.Loop.Safety.votes_from ddbr.Election.Elected.Reached.reached half
    ◌+ℤ◌
bid = record {
  front = [];
  own = candidate_8;
  back = voter ∷ voter ∷ [];
  is_member = refl;
  before = [];
  after = [];
  now = 900;
  later = 901;
  grants = true ∷ true ∷ [];
  inputs = refl;
  start = standing;
  starts = refl;
  first_peer = bytes "b";
  other_peers = bytes "c" ∷ [];
  not_leader = λ e. ground (arith, e);
  some_peers = refl;
  no_events = refl;
  due = refl;
  next_term = refl;
  all_nodes = refl;
  given = omega arith;
}

outcome-one_leader_example : pos 8 ≡ pos 8
unfolding bid half ◌+ℤ◌ ddbr.Election.Elected.run
outcome-one_leader_example = outcome-one_leader (pos 4) nodes bid bid nodes-AreSound refl refl
