-- ===== src/Election/Append/Replies.antt =====
-- The answers of AppendEntries (ddbr-server/infra/raft_state_machine.go) and the log that it
-- leaves.
use ddbr.Common.{
  ◌⊎◌, inl, [], ℕ, suc, ◌+◌, ◌-◌, ◌<◌, ◌≤◌, ◌≡◌, refl, sym, ap, ◌∙◌, true, List, ◌∷◌, Option, none,
  some, arith, length,
}
use ddbr.Common.Eq.{Str}
use ddbr.Common.Int.{ℤ, pos, two_63, pos-+ℤ_one, ◌+ℤ◌, ◌≤ℤ◌}
use ddbr.Entry.{LogEntry}
use ddbr.Rpc.{AppendEntriesReq}
use ddbr.Election.{RaftStateMachine, heartbeat, send}
use ddbr.Election.Append.{
  UnmarshalEntry, Answered, new_entries, merge, matches_prev, append_rest, append_logs,
  append_entries, step_down, advance_commit, finish_merge, reply,
}
use ddbr.Election.Append.Merge.{
  raft_merge, merge-raft_merge, merge-at_end, new_entries-IsConsecutive, length-new_entries,
}

advance_commit-logs : (c : ℤ) (sm : RaftStateMachine) → (advance_commit c sm).logs ≡ sm.logs
unfolding advance_commit
advance_commit-logs c sm = ground arith

step_down-logs : (t : ℤ) (sm : RaftStateMachine) → (step_down t sm).logs ≡ sm.logs
unfolding step_down
step_down-logs t sm = ground arith

finish_merge-logs :
    (t c : ℤ) (sm : RaftStateMachine) (o : Option (List LogEntry)) (logs : List LogEntry)
    → o ≡ some logs
    → ((finish_merge t c sm o).0 ≡ reply true t) × ((finish_merge t c sm o).1.logs ≡ logs)
finish_merge-logs t c sm none logs h = absurd (ground arith)
finish_merge-logs t c sm (some xs) logs h =
    (refl, advance_commit-logs c (record sm { logs = xs }) ∙ ground (arith, h))

append_logs-accepted :
    (u : UnmarshalEntry) (t : ℤ) (req : AppendEntriesReq) (s : Str) (ss : List Str)
    (sm : RaftStateMachine)
    → req.prev_log_index ≤ℤ pos (length sm.logs)
    → matches_prev req.prev_log_index req.prev_log_term sm.logs ≡ true
    → append_logs u t req (s ∷ ss) sm
      ≡ finish_merge t req.leader_commit sm
          (merge sm.logs (new_entries u req.term (req.prev_log_index +ℤ pos 1) (s ∷ ss)))
unfolding append_logs
append_logs-accepted u t req s ss sm l m = ground (arith, m)

matches_prev-start : (t : ℤ) (logs : List LogEntry) → matches_prev (pos 0) t logs ≡ true
unfolding matches_prev
matches_prev-start t logs = ground arith

abbrev Leaves : Answered → ℤ → List LogEntry → Type 0
Leaves (o, sm) t logs = (o ≡ reply true t) × (sm.logs ≡ logs)

append_logs-start :
    (u : UnmarshalEntry) (t : ℤ) (req : AppendEntriesReq) (s : Str) (ss : List Str)
    (sm : RaftStateMachine)
    → req.prev_log_index ≡ pos 0
    → length (s ∷ ss) < two_63 - 1
    → Leaves
        (append_logs u t req (s ∷ ss) sm)
        t
        (raft_merge sm.logs (new_entries u req.term (pos 1) (s ∷ ss)))
append_logs-start u t req s ss sm p b =
    let es = new_entries u req.term (pos 1) (s ∷ ss) in
    let m =
      merge-raft_merge sm.logs es
        (new_entries-IsConsecutive u req.term 0 (s ∷ ss) (omega (arith, b)))
        (omega (arith, b, length-new_entries u req.term (pos 1) (s ∷ ss))) in
    rw
      (
        append_logs-accepted u t req s ss sm (ground (arith, p)) (
            ap (λ i. matches_prev i req.prev_log_term sm.logs) p
            ∙ matches_prev-start req.prev_log_term sm.logs),
        p,
        pos-+ℤ_one 0 (omega arith),
      )
      (finish_merge-logs t req.leader_commit sm (merge sm.logs es) (raft_merge sm.logs es) m)

append_logs-at_end :
    (u : UnmarshalEntry) (t : ℤ) (req : AppendEntriesReq) (s : Str) (ss : List Str)
    (sm : RaftStateMachine)
    → req.prev_log_index ≡ pos (length sm.logs)
    → matches_prev req.prev_log_index req.prev_log_term sm.logs ≡ true
    → length sm.logs + length (s ∷ ss) < two_63 - 1
    → Leaves
        (append_logs u t req (s ∷ ss) sm)
        t
        (append_rest sm.logs (new_entries u req.term (pos (suc (length sm.logs))) (s ∷ ss)))
append_logs-at_end u t req s ss sm p m b =
    let k = length sm.logs in
    let es = new_entries u req.term (pos (suc k)) (s ∷ ss) in
    rw
      (
        append_logs-accepted u t req s ss sm (ground (arith, p)) m,
        p,
        pos-+ℤ_one k (omega (arith, b)),
      )
      (finish_merge-logs t req.leader_commit sm (merge sm.logs es) (append_rest sm.logs es) (
        merge-at_end sm.logs es (new_entries-IsConsecutive u req.term k (s ∷ ss) (omega (arith, b)))
          (omega (arith, b, length-new_entries u req.term (pos (suc k)) (s ∷ ss)))))

-- The state in which a request of no older term finds the node.
unfoldable taken_over : ℤ → ℕ → RaftStateMachine → RaftStateMachine
unfolding step_down
taken_over term now sm = step_down term (send heartbeat (record sm { last_heartbeat = now }))

append_entries-taken_over :
    (u : UnmarshalEntry) (now : ℕ) (req : AppendEntriesReq) (sm : RaftStateMachine)
    → sm.current_term ≤ℤ req.term
    → append_entries u now req sm
      ≡ append_logs u sm.current_term req req.entries (taken_over req.term now sm)
unfolding append_entries taken_over
append_entries-taken_over u now req sm l = ground arith

taken_over-logs : (t : ℤ) (now : ℕ) (sm : RaftStateMachine) → (taken_over t now sm).logs ≡ sm.logs
unfolding taken_over
taken_over-logs t now sm = step_down-logs t (send heartbeat (record sm { last_heartbeat = now }))

append_rest-short : (logs es : List LogEntry) → length es ≤ length logs → append_rest logs es ≡ logs
unfolding append_rest
append_rest-short logs es l = ground arith

-- A request whose PrevLogIndex is 0 and which carries entries leaves the log that Raft's rule
-- gives: what agrees in term is kept, and from the first disagreement, or the log's end, the
-- request's entries stand. It is answered with success and the node's term from before; the request
-- is not of an older term, and there are fewer than 2^63 - 1 entries.
pub append_entries-start :
    (u : UnmarshalEntry) (now : ℕ) (req : AppendEntriesReq) (s : Str) (ss : List Str)
    (sm : RaftStateMachine)
    → sm.current_term ≤ℤ req.term
    → req.prev_log_index ≡ pos 0
    → req.entries ≡ s ∷ ss
    → length (s ∷ ss) < two_63 - 1
    → ((append_entries u now req sm).0 ≡ reply true sm.current_term)
      × ((append_entries u now req sm).1.logs
          ≡ raft_merge sm.logs (new_entries u req.term (pos 1) (s ∷ ss)))
unfolding append_logs
append_entries-start u now req s ss sm l p e b =
    let sm' = taken_over req.term now sm in
    let es = new_entries u req.term (pos 1) (s ∷ ss) in
    let a = append_logs-start u sm.current_term req s ss sm' p b in
    rw (append_entries-taken_over u now req sm l, e)
      (a.0, a.1 ∙ ap (λ logs. raft_merge logs es) (taken_over-logs req.term now sm))

-- A request that continues a log at its last entry, the same term included, with no more new
-- entries than the log has already, is answered with success but leaves the log as it was: the new
-- entries are lost. The request is not of an older term.
pub append_entries-drops :
    (u : UnmarshalEntry) (now : ℕ) (req : AppendEntriesReq) (s : Str) (ss : List Str)
    (sm : RaftStateMachine)
    → sm.current_term ≤ℤ req.term
    → req.prev_log_index ≡ pos (length sm.logs)
    → matches_prev req.prev_log_index req.prev_log_term sm.logs ≡ true
    → req.entries ≡ s ∷ ss
    → length (s ∷ ss) ≤ length sm.logs
    → length sm.logs + length (s ∷ ss) < two_63 - 1
    → ((append_entries u now req sm).0 ≡ reply true sm.current_term)
      × ((append_entries u now req sm).1.logs ≡ sm.logs)
unfolding append_logs
append_entries-drops u now req s ss sm l p m e n b =
    let sm' = taken_over req.term now sm in
    let g = taken_over-logs req.term now sm in
    let es = new_entries u req.term (pos (suc (length sm'.logs))) (s ∷ ss) in
    let a =
      append_logs-at_end u sm.current_term req s ss sm' (p ∙ ap (λ logs. pos (length logs)) (sym g))
        (ap (λ logs. matches_prev req.prev_log_index req.prev_log_term logs) g ∙ m) (rw g b) in
    rw (append_entries-taken_over u now req sm l, e)
      (
        a.0,
        a.1
            ∙ append_rest-short sm'.logs es
                (rw (length-new_entries u req.term (pos (suc (length sm'.logs))) (s ∷ ss), g) n)
            ∙ g,
      )

finish_merge-commit :
    (t c : ℤ) (sm : RaftStateMachine) (o : Option (List LogEntry))
    → let sm' = (finish_merge t c sm o).1 in
      (sm'.commit_index ≡ sm.commit_index)
      ⊎ ((sm'.commit_index ≤ℤ c) × (sm'.commit_index ≤ℤ pos (length sm'.logs)))
unfolding advance_commit
finish_merge-commit t c sm none = inl refl
finish_merge-commit t c sm (some logs) = ground arith

append_logs-commit :
    (u : UnmarshalEntry) (t : ℤ) (req : AppendEntriesReq) (es : List Str) (sm : RaftStateMachine)
    → let sm' = (append_logs u t req es sm).1 in
      (sm'.commit_index ≡ sm.commit_index)
      ⊎ ((sm'.commit_index ≤ℤ req.leader_commit) × (sm'.commit_index ≤ℤ pos (length sm'.logs)))
unfolding append_logs
append_logs-commit u t req [] sm = inl refl
append_logs-commit u t req (s ∷ ss) sm = ground (
  arith,
  finish_merge-commit t req.leader_commit sm
      (merge sm.logs (new_entries u req.term (req.prev_log_index +ℤ pos 1) (s ∷ ss))),
)

-- AppendEntries moves the commit index, on any request, only to a place that the leader has
-- committed and that the node's own log then reaches.
pub append_entries-commit :
    (u : UnmarshalEntry) (now : ℕ) (req : AppendEntriesReq) (sm : RaftStateMachine)
    → let sm' = (append_entries u now req sm).1 in
      (sm'.commit_index ≡ sm.commit_index)
      ⊎ ((sm'.commit_index ≤ℤ req.leader_commit) × (sm'.commit_index ≤ℤ pos (length sm'.logs)))
unfolding append_entries
append_entries-commit u now req sm = ground (
  arith,
  append_logs-commit u sm.current_term req req.entries
      (step_down req.term (send heartbeat (record sm { last_heartbeat = now }))),
)
