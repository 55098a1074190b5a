-- ===== src/RaftState/Vote.antt =====
-- The elections and heartbeats of the Raft state (ddbr-server/infra/raft_state.go): BeginVote,
-- becomeLeaderUnlocked, heartbeatLoop and sendHeartbeats. A section under the mutex is a function.
pub mod Count
pub mod Flaws
use ddbr.Common.{
  ℕ, zero, suc, ◌+◌, ◌/◌, Bool, true, false, not, List, [], ◌∷◌, Option, none, some, length, leb,
  if◌then◌else◌,
}
use ddbr.Common.Eq.{Str, str_Eq, int_Eq, ◌==◌}
use ddbr.Common.Int.{ℤ, pos, negsuc, ltb_ℤ, ◌+ℤ◌}
use ddbr.Common.Dict.{Dict, insert}
use ddbr.Entry.{LogEntry, last_index, last_term}
use ddbr.Rpc.{RequestVoteReq, RequestVoteResp, AppendEntriesReq, AppendEntriesResp}
use ddbr.RaftState.{RaftState}

-- The state, the global configuration's IsMaster, and the heartbeat loops that were started.
pub record Member : Type 0 where
  pub raft : RaftState
  pub config_master : Bool
  pub loops : ℕ

abbrev pub with_raft : RaftState → Member → Member
with_raft rs m = record m { raft = rs }

-- What BeginVote's first section hands on: the request and the copy of the peers, or `none` where
-- there are no other nodes.
abbrev pub Plan : Type 0
Plan = Option (RequestVoteReq × List Str)

unfoldable pub next_term : RaftState → RaftState
next_term rs = record rs { current_term = rs.current_term +ℤ pos 1; voted_for = rs.node_id }

unfoldable pub vote_request : RaftState → RequestVoteReq
unfolding last_index last_term
vote_request rs = record {
  term = rs.current_term;
  candidate_id = rs.node_id;
  last_log_index = last_index rs.logs;
  last_log_term = last_term rs.logs;
}

abbrev pub plan_for : List Str → RaftState → Plan
plan_for [] rs = none
plan_for (peer ∷ peers) rs = some (vote_request rs, peer ∷ peers)

unfoldable pub begin_vote : Member → Plan × Member
unfolding next_term vote_request
begin_vote m = let rs = next_term m.raft in (plan_for m.raft.peers rs, with_raft rs m)

abbrev insert_all : ℤ → List Str → Dict Str ℤ → Dict Str ℤ
insert_all n [] d = d
insert_all n (peer ∷ peers) d = insert_all n peers (insert peer n d)

-- becomeLeaderUnlocked
unfoldable pub become_leader : Member → Member
unfolding last_index
become_leader m =
    let rs = m.raft in
    if rs.is_master then m else record {
      raft = record rs {
        is_master = true;
        next_index = insert_all (last_index rs.logs +ℤ pos 1) rs.peers rs.next_index;
        match_index = insert_all (pos 0) rs.peers rs.match_index;
      };
      config_master = true;
      loops = suc m.loops;
    }

-- The votes that an election needs, the node's own among them.
abbrev pub votes_needed : List Str → ℕ
votes_needed peers = length peers / 2 + 1

-- The peers that are asked: those whose address is not empty.
abbrev pub asked : List Str → ℕ
asked [] = 0
asked (peer ∷ peers) = if peer == [] then asked peers else suc (asked peers)

-- An election in progress: `waiting` goroutines have no answer, `granted` ones have one that grants
-- the vote and are about to count it, `elected` ones counted enough and are about to make the node
-- the leader.
pub record Campaign : Type 0 where
  pub request : RequestVoteReq
  pub votes_needed : ℕ
  pub votes_received : ℕ
  pub waiting : ℕ
  pub granted : ℕ
  pub elected : ℕ

abbrev pub open_campaign : RequestVoteReq → List Str → Campaign
open_campaign req peers = record {
  request = req;
  votes_needed = votes_needed peers;
  votes_received = 1;
  waiting = asked peers;
  granted = 0;
  elected = 0;
}

abbrev pub ask_votes : Plan → Member → Option Campaign × Member
ask_votes none m = (none, become_leader m)
ask_votes (some (req, peers)) m =
    if leb (votes_needed peers) 1
    then (none, become_leader m)
    else (some (open_campaign req peers), m)

-- BeginVote up to its wait for the goroutines.
unfoldable pub start_vote : Member → Option Campaign × Member
unfolding begin_vote become_leader
start_vote m = let (plan, m') = begin_vote m in ask_votes plan m'

-- The section of a goroutine that has its answer; it ends without a trace in the count.
unfoldable pub note_answer : RequestVoteReq → RequestVoteResp → RaftState → RaftState
note_answer req resp rs =
    if not (req.term == rs.current_term)
    then rs
    else if ltb_ℤ rs.current_term resp.term
    then record rs { current_term = resp.term; voted_for = negsuc 0; is_master = false }
    else rs

abbrev note_vote : RequestVoteResp → Campaign → Campaign
note_vote resp c = if resp.vote_granted then record c { granted = suc c.granted } else c

abbrev count_vote : Campaign → Campaign
count_vote c = record c {
  votes_received = suc c.votes_received;
  elected = if leb c.votes_needed (suc c.votes_received) then suc c.elected else c.elected;
}

-- The answer to a heartbeat of sendHeartbeats, which sets the global configuration too.
unfoldable pub heartbeat_answered : AppendEntriesResp → Member → Member
heartbeat_answered resp m =
    if ltb_ℤ m.raft.current_term resp.term
    then record {
      raft = record m.raft { current_term = resp.term; voted_for = negsuc 0; is_master = false };
      config_master = false;
      loops = m.loops;
    }
    else m

-- A heartbeat: the section that prepares it for one peer, `none` where the node does not lead.
unfoldable pub heartbeat : RaftState → Option AppendEntriesReq
heartbeat rs =
    if not rs.is_master
    then none
    else some (record {
      term = rs.current_term;
      leader_id = rs.node_id;
      prev_log_index = pos 0;
      prev_log_term = pos 0;
      entries = [];
      leader_commit = rs.commit_index;
      is_pre_commit = false;
    })

-- One section of a goroutine while an election is in progress: the answer of a peer, the end of a
-- call without one, the count of a granted vote, the call of becomeLeaderUnlocked, the answer to a
-- heartbeat, and SetPeers.
pub data Section : Type 0 where
  answered : RequestVoteResp → Section
  failed : Section
  counted : Section
  led : Section
  beat_answered : AppendEntriesResp → Section
  peers_set : List Str → Section

abbrev take_answer : RequestVoteResp → ℕ → Campaign → Member → Campaign × Member
take_answer resp zero c m = (c, m)
take_answer resp (suc n) c m =
    (note_vote resp (record c { waiting = n }), with_raft (note_answer c.request resp m.raft) m)

abbrev take_failure : ℕ → Campaign → Campaign
take_failure zero c = c
take_failure (suc n) c = record c { waiting = n }

abbrev take_count : ℕ → Campaign → Campaign
take_count zero c = c
take_count (suc n) c = count_vote (record c { granted = n })

abbrev take_lead : ℕ → Campaign → Member → Campaign × Member
take_lead zero c m = (c, m)
take_lead (suc n) c m = (record c { elected = n }, become_leader m)

unfoldable pub step : Section → Campaign × Member → Campaign × Member
unfolding note_answer become_leader heartbeat_answered
step (answered resp) (c, m) = take_answer resp c.waiting c m
step failed (c, m) = (take_failure c.waiting c, m)
step counted (c, m) = (take_count c.granted c, m)
step led (c, m) = take_lead c.elected c m
step (beat_answered resp) (c, m) = (c, heartbeat_answered resp m)
step (peers_set peers) (c, m) = (c, with_raft (record m.raft { peers = peers }) m)

unfoldable pub run : List Section → Campaign × Member → Campaign × Member
unfolding step
run [] s = s
run (x ∷ xs) s = run xs (step x s)
