-- ===== src/RaftState/Log.antt =====
-- GetLastLogIndex and AppendLog (ddbr-server/infra/raft_state.go).
pub mod Append
use ddbr.Common.{
  ℕ, suc, Bool, true, false, List, [], ◌∷◌, ◌++◌, Option, none, some, take, get_last?,
  if◌then◌else◌,
}
use ddbr.Common.Int.{ℤ, pos, ltb_ℤ, eqb_ℤ, ◌+ℤ◌}
use ddbr.Entry.{LogEntry, last_index}
use ddbr.RaftState.{RaftState}

unfoldable pub get_last_log_index : RaftState → ℤ
unfolding last_index
get_last_log_index rs = last_index rs.logs

abbrev next_of : Option LogEntry → ℤ
next_of none = pos 1
next_of (some e) = e.index +ℤ pos 1

-- An index below 1 is replaced by the one after the last entry's.
unfoldable pub adjust_index : List LogEntry → LogEntry → LogEntry
adjust_index logs entry =
    if ltb_ℤ entry.index (pos 1) then record entry { index = next_of (get_last? logs) } else entry

-- How the loop over the log ends.
pub data Check : Type 0 where
  clear : Check
  conflict_at : ℕ → Check
  duplicate : Check

unfoldable pub find_conflict : ℕ → List LogEntry → LogEntry → Check
find_conflict i [] entry = clear
find_conflict i (e ∷ log) entry =
    if eqb_ℤ e.index entry.index
    then if eqb_ℤ e.term entry.term then duplicate else conflict_at i
    else find_conflict (suc i) log entry

abbrev pub append_checked : List LogEntry → LogEntry → Check → List LogEntry
append_checked logs entry clear = logs ++ entry ∷ []
append_checked logs entry (conflict_at i) = take i logs ++ entry ∷ []
append_checked logs entry duplicate = logs

-- The log after AppendLog of an entry whose index is at least 1.
unfoldable pub append_to : List LogEntry → LogEntry → List LogEntry
unfolding find_conflict
append_to logs entry = append_checked logs entry (find_conflict 0 logs entry)

-- The caller holds the entry too, so the entry comes back as AppendLog leaves it.
unfoldable pub append_log : RaftState → LogEntry → RaftState × LogEntry
unfolding adjust_index append_to
append_log rs entry =
    let entry' = adjust_index rs.logs entry in
    (record rs { logs = append_to rs.logs entry' }, entry')
