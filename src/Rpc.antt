-- ===== src/Rpc.antt =====
-- The messages of the server's RPC interface (ddbr-server/kitex_gen/ddbr/rpc/sever/server.go and
-- common/common.go), with the fields that the program reads.
use ddbr.Common.{Bool, List}
use ddbr.Common.Eq.{Str}
use ddbr.Common.Int.{ℤ}
use ddbr.Entry.{LogEntry}

pub record RequestVoteReq : Type 0 where
  pub term : ℤ
  pub candidate_id : ℤ
  pub last_log_index : ℤ
  pub last_log_term : ℤ

pub record RequestVoteResp : Type 0 where
  pub term : ℤ
  pub vote_granted : Bool
  pub resp_code : ℤ
  pub message : Str

pub record AppendEntriesReq : Type 0 where
  pub term : ℤ
  pub leader_id : ℤ
  pub prev_log_index : ℤ
  pub prev_log_term : ℤ
  pub entries : List Str
  pub leader_commit : ℤ
  pub is_pre_commit : Bool

pub record AppendEntriesResp : Type 0 where
  pub term : ℤ
  pub success : Bool

pub record LogSyncReq : Type 0 where
  pub node_id : ℤ
  pub last_log_index : ℤ
  pub last_log_term : ℤ

pub record LogSyncResp : Type 0 where
  pub success : Bool
  pub message : Str
  pub entries : List LogEntry
  pub leader_id : ℤ
