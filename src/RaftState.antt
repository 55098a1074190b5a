-- ===== src/RaftState.antt =====
-- The leader's record of the Raft state (ddbr-server/infra/raft_state.go). Each method holds the
-- mutex; a method that changes the state returns the new record.
pub mod Log
pub mod Config
pub mod Apply
pub mod Vote
pub mod Commit
pub mod Entries
use ddbr.Common.{ℕ, Bool, true, false, List, [], ◌∷◌, Option, none, some}
use ddbr.Common.Eq.{Str, bytes}
use ddbr.Common.Int.{ℤ, pos, negsuc}
use ddbr.Common.Dict.{Dict}
use ddbr.Entry.{LogEntry}

pub record RaftState : Type 0 where
  pub current_term : ℤ
  pub voted_for : ℤ
  pub logs : List LogEntry
  pub commit_index : ℤ
  pub last_applied : ℤ
  pub next_index : Dict Str ℤ
  pub match_index : Dict Str ℤ
  pub node_id : ℤ
  pub cluster_id : ℤ
  pub peers : List Str
  pub election_timeout : ℤ
  pub heartbeat_period : ℤ
  pub data_dir : Str
  pub snapshot_count : ℤ
  pub port : Str
  pub gateway_host : Str
  pub is_master : Bool
  pub master_addr : Str

-- GetRaftState's first call
abbrev pub new : RaftState
new = record {
  current_term = pos 0;
  voted_for = negsuc 0;
  logs = [];
  commit_index = pos 0;
  last_applied = pos 0;
  next_index = [];
  match_index = [];
  node_id = pos 0;
  cluster_id = pos 1;
  peers = [];
  election_timeout = pos 1000;
  heartbeat_period = pos 100;
  data_dir = bytes "data";
  snapshot_count = pos 10000;
  port = [];
  gateway_host = [];
  is_master = false;
  master_addr = [];
}

-- The setters of the fields that other components write.
abbrev pub set_current_term : ℤ → RaftState → RaftState
set_current_term term rs = record rs { current_term = term }

abbrev pub set_voted_for : ℤ → RaftState → RaftState
set_voted_for candidate_id rs = record rs { voted_for = candidate_id }

abbrev pub set_logs : List LogEntry → RaftState → RaftState
set_logs logs rs = record rs { logs = logs }

abbrev pub set_peers : List Str → RaftState → RaftState
set_peers peers rs = record rs { peers = peers }

abbrev pub set_commit_index : ℤ → RaftState → RaftState
set_commit_index index rs = record rs { commit_index = index }

abbrev pub set_last_applied : ℤ → RaftState → RaftState
set_last_applied index rs = record rs { last_applied = index }
