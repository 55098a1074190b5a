-- ===== src/Service/Stuck.antt =====
-- What a write with a colon does to a leader (ddbr-server/service/kv_impl.go with
-- infra/replication.go, raft_state.go and state_machine.go): once its entry is due, it blocks all
-- later writes.
pub mod Colon
use ddbr.Common.{
  ℕ, suc, ◌+◌, ◌-◌, ◌≤◌, ◌<◌, ◌≡◌, refl, sym, ap, subst, ◌∙◌, inl, inr, true, false, List, [], ◌∷◌,
  ◌++◌, some, arith, length, take, drop, drop-get, get_elem?, get_elem?-append,
  get_elem?-append_length,
}
use ddbr.Common.Eq.{Str}
use ddbr.Common.Int.{ℤ, pos, two_63}
use ddbr.Common.Result.{err}
use ddbr.Common.Text.{occurrences}
use ddbr.Entry.{LogEntry, new_entry, IsConsecutive}
use ddbr.Kv.Command.{ApplyError, invalid_set_format, format_set, Unmarshal, says_applied}
use ddbr.Kv.Machine.{StateMachine, apply_log}
use ddbr.Kv.Apply.{Write, put, encode, apply_log-set_colon}
use ddbr.RaftState.{RaftState}
use ddbr.RaftState.Apply.{failed, apply_committed_logs, committed_entries}
use ddbr.RaftState.Apply.Range.{apply_committed_logs-some, apply_entries-refused}
use ddbr.Replication.{PeerStep, commit_log}
use ddbr.Service.{Node, Handled, failed_to_replicate, refuse, set, finish_write}
use ddbr.Service.Append.{added, Taken}
use ddbr.Replication.Quorum.{Keeps}
use ddbr.Service.Settled.{
  Settled, handle, grown, length-grown, grown-IsConsecutive, grown_range, grown_entries,
  commit_write, handle-commit_write, Keeps-Settled,
}

-- The entry after the last applied one's successor is due next, and the store refuses it with `x`.
pub record Stuck (u : Unmarshal) (x : ApplyError) (n : Node) : Type 0 where
  pub leads : n.is_master ≡ true
  pub counts : IsConsecutive 0 n.raft.logs
  pub last : ℕ
  pub applied : n.raft.last_applied ≡ pos last
  pub due : LogEntry
  pub due_at : get_elem? n.raft.logs (suc last) ≡ some due
  pub refused : apply_log u due n.kv ≡ (err x, n.kv)
  pub unsaid : says_applied x ≡ false

-- The reply and the node after a write that ApplyCommittedLogs does not get through.
pub refused-finish :
    (u : Unmarshal) (t : ℤ) (w : Write) (n : Node) (x : ApplyError)
    → let rs = grown n.raft t (encode w) in
      apply_committed_logs u (rs, n.kv) ≡ (err (failed x), (rs, n.kv))
      → commit_write u t w n ≡ (refuse (failed_to_replicate x), record n { raft = rs })
unfolding finish_write commit_log
refused-finish u t w n x e = rw (e, finish_write)

committed_entries-due :
    (rs : RaftState) (a : ℕ) (t : ℤ) (cmd : Str) (due : LogEntry)
    → rs.last_applied ≡ pos a
    → get_elem? (grown rs t cmd).logs (suc a) ≡ some due
    → suc a ≤ length rs.logs
    → suc (suc (length rs.logs)) < two_63
    → (es : List LogEntry) × (committed_entries (grown rs t cmd) ≡ some (due ∷ es))
committed_entries-due rs a t cmd due l g le b = elim (drop-get (suc a) (grown rs t cmd).logs) [
  | inl (none_there, _) ↦ absurd (ground arith)
  | inr (x, there, d, _) ↦ (
    take (length rs.logs - a) (drop (suc (suc a)) (grown rs t cmd).logs),
    grown_range rs a t cmd l (omega arith) b
        ∙ (let q : suc (length rs.logs) - a ≡ suc (length rs.logs - a) = omega arith in
            let same : x ≡ due = ground arith in rw (d, q, same)),
  )
]

Keeps-Stuck :
    (u : Unmarshal) (x : ApplyError) (n : Node) (base : RaftState)
    → Stuck u x n
    → Keeps n.raft base
    → Stuck u x (record n { raft = base })
Keeps-Stuck u x n base h k = record {
  leads = h.leads;
  counts = subst (IsConsecutive 0) (sym k.logs) h.counts;
  last = h.last;
  applied = k.last_applied ∙ h.applied;
  due = h.due;
  due_at = ap (λ l. get_elem? l (suc h.last)) k.logs ∙ h.due_at;
  refused = h.refused;
  unsaid = h.unsaid;
}

-- What a write does that the commit is stopped at: the answer is an error, and the entry is there.
abbrev pub StuckAt : Unmarshal → ApplyError → Node → Handled → Type 0
StuckAt u x n (reply, n') =
    (reply ≡ refuse (failed_to_replicate x))
    × (n'.kv ≡ n.kv)
    × (length n'.raft.logs ≡ suc (length n.raft.logs))
    × (n'.raft.commit_index ≡ pos (suc (length n.raft.logs)))
    × Stuck u x n'

commit_write-Stuck :
    (u : Unmarshal) (t : ℤ) (w : Write) (n : Node) (x : ApplyError)
    → Stuck u x n
    → suc (suc (length n.raft.logs)) < two_63
    → StuckAt u x n (commit_write u t w n)
commit_write-Stuck u t w n x h b = rw (refused-finish u t w n x blocked) (
  refl,
  refl,
  length-grown n.raft t (encode w),
  refl,
  record {
    leads = h.leads;
    counts = grown-IsConsecutive n.raft t (encode w) h.counts;
    last = h.last;
    applied = h.applied;
    due = h.due;
    due_at = still_due;
    refused = h.refused;
    unsaid = h.unsaid;
  },
)
  where
    in_log : suc h.last < length n.raft.logs
    in_log = elim (drop-get (suc h.last) n.raft.logs) [
      | inl (g, _) ↦ absurd (ground (arith, h.due_at))
      | inr (y, g, d, l) ↦ l
    ]

    still_due : get_elem? (grown n.raft t (encode w)).logs (suc h.last) ≡ some h.due
    still_due =
        get_elem?-append (suc h.last) n.raft.logs (added t (length n.raft.logs) (encode w) ∷ [])
          h.due_at

    blocked :
        apply_committed_logs u (grown n.raft t (encode w), n.kv)
        ≡ (err (failed x), (grown n.raft t (encode w), n.kv))
    blocked =
        let (es, e) =
          committed_entries-due n.raft h.last t (encode w) h.due h.applied still_due
            (omega (arith, in_log)) b in
        apply_committed_logs-some u (grown n.raft t (encode w)) n.kv (h.due ∷ es)
          (rw h.applied (omega (arith, in_log))) e
        ∙ apply_entries-refused u h.due es (grown n.raft t (encode w)) n.kv x h.refused h.unsaid

-- The same seen from the node before the answers of the peers
pub Keeps-StuckAt :
    (u : Unmarshal) (x : ApplyError) (n : Node) (base : RaftState) (r : Handled)
    → Keeps n.raft base
    → StuckAt u x (record n { raft = base }) r
    → StuckAt u x n r
Keeps-StuckAt u x n base r k (reply, kv, one, committed, stuck) = (
  reply,
  kv,
  one ∙ ap (λ l. suc (length l)) k.logs,
  committed ∙ ap (λ l. pos (suc (length l))) k.logs,
  stuck,
)

-- On a leader where the entry after the one with the index LastApplied + 1 is in the log and
-- refused by the store for a reason of its own, every write that enough peers take, or any if there
-- are no peers, is answered with that error, the store stays as it is, and the leader is in such a
-- state again, though the log has one more entry and the commit index is at it. The log is shorter
-- than 2^63 - 2 entries.
pub handle-Stuck :
    (u : Unmarshal) (ss : List PeerStep) (w : Write) (n : Node) (x : ApplyError)
    → Stuck u x n
    → Taken ss n.raft.peers
    → suc (suc (length n.raft.logs)) < two_63
    → let (reply, n') = handle u ss w n in
      (reply ≡ refuse (failed_to_replicate x))
      × (n'.kv ≡ n.kv)
      × (length n'.raft.logs ≡ suc (length n.raft.logs))
      × (n'.raft.commit_index ≡ pos (suc (length n.raft.logs)))
      × Stuck u x n'
handle-Stuck u ss w n x h taken b =
    let (base, keeps, e) = handle-commit_write u ss w n h.leads taken h.counts (omega (arith, b)) in
    let m : Node = record n { raft = base } in
    let b' : suc (suc (length m.raft.logs)) < two_63 = rw keeps.logs b in
    subst (StuckAt u x n) (sym e) (
      Keeps-StuckAt u x n base (commit_write u n.raft.current_term w m) keeps
        (commit_write-Stuck u n.raft.current_term w m x (Keeps-Stuck u x n base h keeps) b'))
