-- ===== src/Examples/Logs.antt =====
-- Examples for the leader's log and its replication (ddbr-server/infra/raft_state.go,
-- replication.go).
use ddbr.Common.{◌+◌, length, inl, ◌≡◌, refl, true, [], ◌∷◌, ◌++◌, some, arith, take}
use ddbr.Common.Eq.{bytes}
use ddbr.Common.Int.{pos, negsuc, ◌+ℤ◌}
use ddbr.Common.Result.{ok}
use ddbr.Entry.{LogEntry, new_entry, IsConsecutive}
use ddbr.Kv.Machine
use ddbr.RaftState
use ddbr.RaftState.{RaftState}
use ddbr.RaftState.Log.{append_log}
use ddbr.RaftState.Log.Append.{append_log-IsConsecutive}
use ddbr.Replication.{PeerStep, answer, threshold, replicate_logs}
use ddbr.Replication.Quorum.{Keeps, replicate_logs-too_few, replicate_logs-quorum}
use ddbr.Examples.Kv.{no_json}
use ddbr.Rpc.{AppendEntriesReq}
use ddbr.RaftState.Entries.{service_append_entries, request_entries}
use ddbr.RaftState.Entries.Replaces.{service_append_entries-replaces}

abbrev pub first : LogEntry
first = new_entry (pos 1) (pos 1) (bytes "set:a:1")

abbrev pub second : LogEntry
second = new_entry (pos 1) (pos 2) (bytes "set:b:2")

abbrev pub newer : LogEntry
newer = new_entry (pos 2) (pos 2) (bytes "set:c:3")

abbrev two_logged : RaftState
two_logged = record RaftState.new {
  logs = first ∷ second ∷ [];
  commit_index = pos 2;
  peers = bytes "b" ∷ bytes "c" ∷ [];
}

append_log-IsConsecutive_example : IsConsecutive 0 (append_log two_logged newer).0.logs
append_log-IsConsecutive_example =
    append_log-IsConsecutive two_logged newer (refl, (refl, tt)) (omega arith) (omega arith)

abbrev accepted : PeerStep
accepted = answer (bytes "b") (record { term = pos 0; success = true })

replicate_logs-too_few_example :
    let (r, sent, (rs, sm)) = replicate_logs no_json true [] second (two_logged, Machine.new) in
    (r ≡ ok (negsuc 0)) × Keeps two_logged rs × (sm ≡ Machine.new)
unfolding threshold
replicate_logs-too_few_example =
    replicate_logs-too_few no_json [] second two_logged Machine.new (λ e. cc) (omega arith)

-- One of two peers is enough.
replicate_logs-quorum_example :
    (replicate_logs no_json true (accepted ∷ []) second (two_logged, Machine.new)).2.0.commit_index
    ≡ pos 2
replicate_logs-quorum_example =
    replicate_logs-quorum no_json true (accepted ∷ []) second two_logged Machine.new

-- The leader sends the first entry again, after the second one was committed.
abbrev first_again : AppendEntriesReq
first_again = record {
  term = pos 1;
  leader_id = pos 8;
  prev_log_index = pos 0;
  prev_log_term = pos 0;
  entries = bytes "set:a:1" ∷ [];
  leader_commit = pos 2;
  is_pre_commit = true;
}

service_append_entries-replaces_example :
    let (o, (rs', kv')) = service_append_entries no_json first_again (two_logged, Machine.new) in
    (o ≡ some (record { term = pos 1; success = true }))
    × (rs'.current_term ≡ pos 1)
    × (rs'.logs
        ≡ take 0 two_logged.logs
          ++ request_entries (pos 1) (pos 0 +ℤ pos 1) 0 (bytes "set:a:1" ∷ []))
    × (length rs'.logs ≡ 0 + 1)
service_append_entries-replaces_example =
    service_append_entries-replaces no_json first_again two_logged Machine.new 0 0 (bytes "set:a:1")
      [] refl refl (omega arith) (inl refl) refl (omega arith) (omega arith) (omega arith)
