-- ===== src/RaftState/Entries.antt =====
-- The older AppendEntries handler (ddbr-server/service/append_entries.go), over the leader's record
-- of the Raft state. Nothing in the program calls it. It locks the mutex for each read and write;
-- here no other call comes between these.
pub mod Applies
pub mod Replaces
use mathlib.Core.Option
use ddbr.Common.{
  ℕ, suc, Bool, true, false, ◌&&◌, List, [], ◌∷◌, ◌++◌, Option, none, some, length, ltb, take,
  if◌then◌else◌,
}
use ddbr.Common.Eq.{Str}
use ddbr.Common.Int.{ℤ, pos, negsuc, ltb_ℤ, leb_ℤ, eqb_ℤ, ◌+ℤ◌, ◌-ℤ◌, slice_get}
use ddbr.Common.Result.{Result, ok, err}
use ddbr.Entry.{LogEntry, new_entry, last_index}
use ddbr.Rpc.{AppendEntriesReq, AppendEntriesResp}
use ddbr.Kv.Command.{Unmarshal}
use ddbr.Kv.Machine.{StateMachine}
use ddbr.RaftState.{RaftState, set_current_term, set_voted_for, set_logs, set_commit_index}
use ddbr.RaftState.Apply.{Fault, panicked, failed, apply_committed_logs}

-- A higher term is taken over.
abbrev pub take_over : ℤ → RaftState → RaftState
take_over term rs =
    if ltb_ℤ rs.current_term term then set_voted_for (negsuc 0) (set_current_term term rs) else rs

-- Whether the log has the entry before the new ones; `none` is a panic.
unfoldable pub has_prev : ℤ → ℤ → List LogEntry → Option Bool
has_prev index term logs =
    let slice_index = index -ℤ pos 1 in
    if ltb_ℤ (pos 0) index
    then if leb_ℤ (pos (length logs)) slice_index
      then some false
      else Option.map (λ (x : LogEntry). eqb_ℤ x.term term) (slice_get logs slice_index)
    else some true

-- The entries from the loop's round `i` on
unfoldable pub request_entries : ℤ → ℤ → ℕ → List Str → List LogEntry
request_entries term next_index i [] = []
request_entries term next_index i (s ∷ ss) =
    new_entry term (next_index +ℤ pos i) s ∷ request_entries term next_index (suc i) ss

-- `logs[:n]` if n is below the length; a negative bound is a panic.
abbrev pub cut_at : ℤ → List LogEntry → Option (List LogEntry)
cut_at (pos n) logs = some (if ltb n (length logs) then take n logs else logs)
cut_at (negsuc n) logs = none

unfoldable pub put_entries : AppendEntriesReq → List Str → RaftState → Option RaftState
unfolding request_entries
put_entries req [] rs = some rs
put_entries req (s ∷ ss) rs =
    let new_entries = request_entries req.term (req.prev_log_index +ℤ pos 1) 0 (s ∷ ss) in
    Option.map (λ logs. set_logs (logs ++ new_entries) rs) (cut_at req.prev_log_index rs.logs)

abbrev pub EntriesAnswer : Type 0
EntriesAnswer = Option AppendEntriesResp × (RaftState × StateMachine)

-- An error of ApplyCommittedLogs is only logged.
abbrev pub after_commit :
    AppendEntriesResp → Result Fault (Unit {0}) × (RaftState × StateMachine) → EntriesAnswer
after_commit resp (ok t, s) = (some resp, s)
after_commit resp (err panicked, s) = (none, s)
after_commit resp (err (failed x), s) = (some resp, s)

abbrev smaller : ℤ → ℤ → ℤ
smaller a b = if ltb_ℤ a b then a else b

unfoldable pub commit_up_to :
    Unmarshal → AppendEntriesResp → ℤ → RaftState × StateMachine → EntriesAnswer
unfolding last_index
commit_up_to u resp leader_commit (rs, kv) =
    if ltb_ℤ rs.commit_index leader_commit
    then after_commit resp (
        apply_committed_logs u
          (set_commit_index (smaller leader_commit (last_index rs.logs)) rs, kv))
    else (some resp, (rs, kv))

abbrev pub accept :
    Unmarshal
    → AppendEntriesReq
    → AppendEntriesResp
    → RaftState × StateMachine
    → Option RaftState
    → EntriesAnswer
accept u req resp s none = (none, s)
accept u req resp (rs, kv) (some rs') = commit_up_to u resp req.leader_commit (rs', kv)

abbrev pub after_prev :
    Unmarshal
    → AppendEntriesReq
    → AppendEntriesResp
    → RaftState × StateMachine
    → Option Bool
    → EntriesAnswer
after_prev u req resp s none = (none, s)
after_prev u req resp s (some false) = (some resp, s)
after_prev u req resp (rs, kv) (some true) =
    accept u req (record resp { success = true }) (rs, kv) (put_entries req req.entries rs)

-- AppendEntries
unfoldable pub service_append_entries :
    Unmarshal → AppendEntriesReq → RaftState × StateMachine → EntriesAnswer
unfolding has_prev put_entries commit_up_to
service_append_entries u req (rs, kv) =
    let rs' = take_over req.term rs in
    let resp : AppendEntriesResp = record { term = rs'.current_term; success = false } in
    if ltb_ℤ req.term rs.current_term
    then (some resp, (rs, kv))
    else after_prev u req resp (rs', kv) (has_prev req.prev_log_index req.prev_log_term rs'.logs)
