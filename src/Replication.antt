-- ===== src/Replication.antt =====
-- Two-phase replication of one log entry (ddbr-server/infra/replication.go). The goroutines that
-- talk to the peers are a schedule: the list of the sections that ran before the wait ended, each
-- of which holds the mutex.

pub mod Quorum
pub mod Request
use ddbr.Common.{
  ℕ, zero, suc, ◌+◌, ◌-◌, ◌/◌, Bool, true, false, not, List, [], ◌∷◌, ◌++◌, map, Option, none, some,
  length, leb, get_last?, if◌then◌else◌,
}
use ddbr.Common.Eq.{Str, str_Eq}
use ddbr.Common.Int.{ℤ, pos, negsuc, pos_part, neg_part, leb_ℤ, ltb_ℤ, eqb_ℤ, ◌+ℤ◌, ◌-ℤ◌, slice_get}
use ddbr.Common.Dict.{lookup, insert}
use ddbr.Common.Result.{Result, ok, err}
use ddbr.Entry.{LogEntry}
use ddbr.Kv.Command.{Unmarshal}
use ddbr.Kv.Machine.{StateMachine}
use ddbr.RaftState.{RaftState, set_commit_index}
use ddbr.RaftState.Apply.{Fault, apply_committed_logs}
use ddbr.Rpc.{AppendEntriesReq, AppendEntriesResp}

-- convertLogEntriesToStrings
abbrev pub convert_log_entries_to_strings : List LogEntry → List Str
convert_log_entries_to_strings = map λ e. e.command

abbrev first_next : Option LogEntry → ℤ
first_next none = pos 1
first_next (some e) = e.index

-- The peer's NextIndex, which is set if it is missing.
unfoldable pub peer_next : RaftState → Str → RaftState × ℤ
peer_next rs peer = elim (lookup peer rs.next_index) [
  | some n ↦ (rs, n)
  | none ↦
      let n = first_next (get_last? rs.logs) in
      (
        record rs {
          next_index = insert peer n rs.next_index;
          match_index = insert peer (pos 0) rs.match_index;
        },
        n,
      )
]

-- How many rounds `for i := next; i <= index; i++` makes.
abbrev rounds : ℤ → ℤ → ℕ
rounds next index =
    if leb_ℤ next index
    then suc (pos_part index + neg_part next - (pos_part next + neg_part index))
    else 0

-- The log entries with the indices i, i + 1, …, as far as the log has them.
unfoldable pub entries_from : ℕ → ℤ → List LogEntry → List LogEntry
entries_from zero i logs = []
entries_from (suc n) i logs =
    let rest = entries_from n (i +ℤ pos 1) logs in
    elim (slice_get logs (i -ℤ pos 1)) [ none ↦ rest | some e ↦ e ∷ rest ]

abbrev term_or : ℤ → Option LogEntry → ℤ
term_or t none = t
term_or t (some e) = e.term

-- The term at a log index, or what is given where the log has no such entry.
unfoldable pub term_at : ℤ → ℤ → List LogEntry → ℤ
term_at t index logs =
    if ltb_ℤ (pos 0) index then term_or t (slice_get logs (index -ℤ pos 1)) else t

-- The request of doPreCommit.
unfoldable pub pre_commit_request : RaftState → ℤ → LogEntry → AppendEntriesReq
unfolding entries_from term_at
pre_commit_request rs next entry = record {
  term = rs.current_term;
  leader_id = rs.node_id;
  prev_log_index = next -ℤ pos 1;
  prev_log_term = term_at (pos 0) (next -ℤ pos 1) rs.logs;
  entries = convert_log_entries_to_strings (entries_from (rounds next entry.index) next rs.logs);
  leader_commit = rs.commit_index;
  is_pre_commit = true;
}

-- doPreCommit as far as the call of AppendEntries.
unfoldable pub pre_commit_ask : RaftState → Str → LogEntry → RaftState × AppendEntriesReq
unfolding peer_next pre_commit_request
pre_commit_ask rs peer entry =
    let (rs', next) = peer_next rs peer in (rs', pre_commit_request rs' next entry)

abbrev or_zero : Option ℤ → ℤ
or_zero none = pos 0
or_zero (some n) = n

abbrev max_ℤ : ℤ → ℤ → ℤ
max_ℤ a b = if ltb_ℤ b a then a else b

-- doPreCommit after the call: the new state.
unfoldable pub pre_commit_answer : RaftState → Str → LogEntry → AppendEntriesResp → RaftState
pre_commit_answer rs peer entry resp =
    if resp.success
    then record rs {
      match_index = insert peer entry.index rs.match_index;
      next_index = insert peer (entry.index +ℤ pos 1) rs.next_index;
    }
    else if ltb_ℤ rs.current_term resp.term
    then record rs { current_term = resp.term; voted_for = negsuc 0; is_master = false }
    else record rs {
      next_index =
          insert peer (max_ℤ (pos 1) (or_zero (lookup peer rs.next_index) -ℤ pos 1)) rs.next_index;
    }

-- A section of a peer's goroutine. A call that fails has no `answer`.
pub data PeerStep : Type 0 where
  ask : Str → PeerStep
  answer : Str → AppendEntriesResp → PeerStep

pub record Phase : Type 0 where
  pub raft : RaftState
  pub count : ℕ
  pub sent : List (Str × AppendEntriesReq)

unfoldable pub phase_step : LogEntry → PeerStep → Phase → Phase
unfolding pre_commit_ask pre_commit_answer
phase_step entry (ask peer) p =
    let (rs, req) = pre_commit_ask p.raft peer entry in
    record p { raft = rs; sent = p.sent ++ (peer, req) ∷ [] }
phase_step entry (answer peer resp) p = record p {
  raft = pre_commit_answer p.raft peer entry resp;
  count = if resp.success then suc p.count else p.count;
}

unfoldable pub run_phase : LogEntry → List PeerStep → Phase → Phase
run_phase entry [] p = p
run_phase entry (s ∷ ss) p = run_phase entry ss (phase_step entry s p)

-- One request of sendCommitConfirmation, as its goroutine builds it.
unfoldable pub commit_request : RaftState → LogEntry → AppendEntriesReq
unfolding term_at
commit_request rs entry = record {
  term = rs.current_term;
  leader_id = rs.node_id;
  prev_log_index = entry.index -ℤ pos 1;
  prev_log_term = term_at entry.term (entry.index -ℤ pos 1) rs.logs;
  entries = [];
  leader_commit = entry.index;
  is_pre_commit = false;
}

-- sendCommitConfirmation: the answers are only logged.
unfoldable pub send_commit_confirmation :
    RaftState → LogEntry → List Str → List (Str × AppendEntriesReq)
unfolding commit_request
send_commit_confirmation rs entry peers = map (λ peer. (peer, commit_request rs entry)) peers

abbrev pub Outcome : Type 0
Outcome = Result Fault ℤ × List (Str × AppendEntriesReq) × (RaftState × StateMachine)

abbrev commit_result : Result Fault (Unit {0}) → RaftState → Result Fault ℤ
commit_result (ok _) rs = ok rs.commit_index
commit_result (err x) rs = err x

-- commitLog
unfoldable pub commit_log : Unmarshal → LogEntry → RaftState × StateMachine → Outcome
unfolding send_commit_confirmation
commit_log u entry (rs, sm) =
    let rs' = set_commit_index entry.index rs in
    let (r, s) = apply_committed_logs u (rs', sm) in
    (commit_result r s.0, send_commit_confirmation rs' entry rs'.peers, s)

-- newEntry.PreCommitted = true, where the log holds the same entry.
unfoldable pub mark_pre_committed : ℤ → List LogEntry → List LogEntry
mark_pre_committed i [] = []
mark_pre_committed i (e ∷ logs) =
    (if eqb_ℤ e.index i then record e { pre_committed = true } else e) ∷ mark_pre_committed i logs

abbrev pub pre_committed : LogEntry → RaftState → RaftState
pre_committed entry rs = record rs { logs = mark_pre_committed entry.index rs.logs }

unfoldable pub threshold : List Str → ℕ
threshold peers = length peers / 2 + 1

abbrev pub after_sending : List (Str × AppendEntriesReq) → Outcome → Outcome
after_sending sent (r, confirmations, s) = (r, sent ++ confirmations, s)

-- What follows the wait: the commit, if enough peers took the entry.
unfoldable pub finish_phase : Unmarshal → LogEntry → ℕ → Phase → StateMachine → Outcome
unfolding mark_pre_committed
finish_phase u entry needed p sm =
    if leb needed p.count
    then after_sending p.sent (commit_log u entry (pre_committed entry p.raft, sm))
    else (ok (negsuc 0), p.sent, (p.raft, sm))

unfoldable pub replicate_to :
    Unmarshal → List PeerStep → LogEntry → List Str → RaftState × StateMachine → Outcome
unfolding finish_phase threshold
replicate_to u schedule entry [] (rs, sm) = commit_log u entry (pre_committed entry rs, sm)
replicate_to u schedule entry (peer ∷ peers) (rs, sm) =
    finish_phase u entry (threshold (peer ∷ peers))
      (run_phase entry schedule (record { raft = rs; count = 1; sent = [] })) sm

-- ReplicateLogs, where configs.IsMaster() returned `is_master`
unfoldable pub replicate_logs :
    Unmarshal → Bool → List PeerStep → LogEntry → RaftState × StateMachine → Outcome
unfolding replicate_to
replicate_logs u is_master schedule entry (rs, sm) =
    if not is_master
    then (ok (negsuc 0), [], (rs, sm))
    else replicate_to u schedule entry rs.peers (rs, sm)
