-- ===== src/Election/Append.antt =====
-- The AppendEntries handler of the election state machine
-- (ddbr-server/infra/raft_state_machine.go).
pub mod Merge
pub mod Replies
use ddbr.Common.{
  ℕ, suc, Bool, true, false, not, List, [], ◌∷◌, ◌++◌, Option, none, some, length, ltb, take, drop,
  if◌then◌else◌,
}
use ddbr.Common.Eq.{Str}
use ddbr.Common.Int.{ℤ, pos, negsuc, ltb_ℤ, leb_ℤ, eqb_ℤ, ◌+ℤ◌, ◌-ℤ◌, slice_get}
use ddbr.Common.Result.{Result, ok, err}
use ddbr.Entry.{LogEntry, new_entry}
use ddbr.Rpc.{AppendEntriesReq, AppendEntriesResp}
use ddbr.Election.{RaftStateMachine, NodeState, follower, heartbeat, send}

-- json.Unmarshal into a LogEntry: the error's text, or the entry.
abbrev pub UnmarshalEntry : Type 0
UnmarshalEntry = Str → Result Str LogEntry

abbrev pub with_place : ℤ → ℤ → Str → Result Str LogEntry → LogEntry
with_place term index s (ok e) = record e { term = term; index = index }
with_place term index s (err x) = new_entry term index s

-- The new entries of a request: each takes the request's term and the next index.
unfoldable pub new_entries : UnmarshalEntry → ℤ → ℤ → List Str → List LogEntry
new_entries u term index [] = []
new_entries u term index (s ∷ ss) =
    with_place term index s (u s) ∷ new_entries u term (index +ℤ pos 1) ss

-- How the search for a conflict ends; a conflict is the place in the log where the terms differ.
pub data Scan : Type 0 where
  no_conflict : Scan
  conflict_at : ℕ → Scan
  out_of_range : Scan

abbrev pub place : ℤ → ℕ
place (pos n) = n
place (negsuc n) = 0

unfoldable pub scan : List LogEntry → List LogEntry → Scan
scan logs [] = no_conflict
scan logs (e ∷ es) =
    let rest = scan logs es in
    let i = e.index -ℤ pos 1 in
    if leb_ℤ (pos (length logs)) i then no_conflict else elim (slice_get logs i) [
      | none ↦ out_of_range
      | some x ↦ if eqb_ℤ x.term e.term then rest else conflict_at (place i)
    ]

-- The new entries that the log is not long enough to have, by its length alone.
unfoldable pub append_rest : List LogEntry → List LogEntry → List LogEntry
append_rest logs es = if ltb (length logs) (length es) then logs ++ drop (length logs) es else logs

abbrev merge_scanned : List LogEntry → List LogEntry → Scan → Option (List LogEntry)
merge_scanned logs es no_conflict = some (append_rest logs es)
merge_scanned logs es (conflict_at i) = some (append_rest (take i logs) es)
merge_scanned logs es out_of_range = none

-- Steps 3 to 5: cut the log at the first conflict, and append. `none` is a panic.
unfoldable pub merge : List LogEntry → List LogEntry → Option (List LogEntry)
unfolding scan append_rest
merge logs es = merge_scanned logs es (scan logs es)

-- Whether the log has an entry of that index and term; an index of 0 or less passes.
unfoldable pub matches_prev : ℤ → ℤ → List LogEntry → Bool
matches_prev index term logs =
    if ltb_ℤ (pos 0) index
    then elim (slice_get logs (index -ℤ pos 1)) [ none ↦ false | some x ↦ eqb_ℤ x.term term ]
    else true

abbrev min_ℤ : ℤ → ℤ → ℤ
min_ℤ a b = if ltb_ℤ a b then a else b

unfoldable pub advance_commit : ℤ → RaftStateMachine → RaftStateMachine
advance_commit leader_commit sm =
    if ltb_ℤ sm.commit_index leader_commit
    then record sm { commit_index = min_ℤ leader_commit (pos (length sm.logs)) }
    else sm

-- The reply, or `none` for a panic, and the state. Where the commit index goes up the handler
-- starts a goroutine that runs applyCommittedLogs.
abbrev pub Answered : Type 0
Answered = Option AppendEntriesResp × RaftStateMachine

abbrev pub reply : Bool → ℤ → Option AppendEntriesResp
reply success term = some (record { term = term; success = success })

abbrev pub finish_merge : ℤ → ℤ → RaftStateMachine → Option (List LogEntry) → Answered
finish_merge term leader_commit sm none = (none, sm)
finish_merge term leader_commit sm (some logs) =
    (reply true term, advance_commit leader_commit (record sm { logs = logs }))

unfoldable pub append_logs :
    UnmarshalEntry → ℤ → AppendEntriesReq → List Str → RaftStateMachine → Answered
unfolding merge new_entries matches_prev advance_commit
append_logs u term req [] sm = (reply true term, sm)
append_logs u term req (s ∷ ss) sm =
    if ltb_ℤ (pos (length sm.logs)) req.prev_log_index
    then (reply false term, sm)
    else if matches_prev req.prev_log_index req.prev_log_term sm.logs
    then finish_merge term req.leader_commit sm
        (merge sm.logs (new_entries u req.term (req.prev_log_index +ℤ pos 1) (s ∷ ss)))
    else (reply false term, sm)

-- A higher term is taken over, and the node is no leader any more.
unfoldable pub step_down : ℤ → RaftStateMachine → RaftStateMachine
step_down term sm =
    if ltb_ℤ sm.current_term term
    then record sm {
      current_term = term;
      voted_for = negsuc 0;
      state = follower;
      is_master = false;
      config_master = false;
    }
    else sm

-- AppendEntries at the time `now`. The reply's term is the one from before the request.
unfoldable pub append_entries : UnmarshalEntry → ℕ → AppendEntriesReq → RaftStateMachine → Answered
unfolding append_logs step_down
append_entries u now req sm =
    let sm' = send heartbeat (record sm { last_heartbeat = now }) in
    if ltb_ℤ req.term sm.current_term
    then (reply false sm.current_term, sm')
    else append_logs u sm.current_term req req.entries (step_down req.term sm')
