-- ===== src/Service/Stuck/Colon.antt =====
-- How a Set with a colon gets a leader stuck (ddbr-server/service/kv_impl.go with
-- infra/state_machine.go).
use ddbr.Common.{
  ℕ, suc, ◌+◌, ◌<◌, ◌≡◌, refl, sym, ap, subst, ◌∙◌, inl, inr, false, List, [], ◌∷◌, some, arith,
  length, get_elem?, get_elem?-append_length,
}
use ddbr.Common.Eq.{Str}
use ddbr.Common.Int.{ℤ, pos, two_63}
use ddbr.Common.Result.{err}
use ddbr.Common.Text.{occurrences}
use ddbr.Entry.{LogEntry}
use ddbr.Kv.Command.{ApplyError, invalid_set_format, format_set, Unmarshal, says_applied}
use ddbr.Kv.Machine.{apply_log}
use ddbr.Kv.Apply.{put, apply_log-set_colon}
use ddbr.RaftState.Apply.{failed, apply_committed_logs}
use ddbr.RaftState.Apply.Range.{apply_committed_logs-some, apply_entries-refused}
use ddbr.Replication.{PeerStep}
use ddbr.Service.{Node, failed_to_replicate, refuse, set}
use ddbr.Service.Append.{added, Taken}
use ddbr.Service.Settled.{
  Settled, grown, length-grown, grown-IsConsecutive, grown_entries, commit_write,
  handle-commit_write, Keeps-Settled,
}
use ddbr.Service.Stuck.{Stuck, StuckAt, refused-finish, Keeps-StuckAt}

-- A Set with a colon that enough peers take: its own entry is due.
commit_write-colon :
    (u : Unmarshal) (t : ℤ) (key value : Str) (n : Node) (a : ℕ)
    → Settled n a
    → length n.raft.logs ≡ suc a
    → 0 < occurrences b':' key + occurrences b':' value
    → says_applied (invalid_set_format (format_set key value)) ≡ false
    → suc (suc (length n.raft.logs)) < two_63
    → StuckAt u (invalid_set_format (format_set key value)) n (commit_write u t (put key value) n)
commit_write-colon u t key value n a h l colon unsaid b =
    rw (refused-finish u t (put key value) n x blocked) (
      refl,
      refl,
      length-grown n.raft t cmd,
      refl,
      record {
        leads = h.leads;
        counts = grown-IsConsecutive n.raft t cmd h.counts;
        last = a;
        applied = h.applied;
        due = own;
        due_at =
            subst (λ k. get_elem? (grown n.raft t cmd).logs k ≡ some own) l
              (get_elem?-append_length n.raft.logs own);
        refused = refused;
        unsaid = unsaid;
      },
    )
  where
    cmd : Str
    cmd = format_set key value

    x : ApplyError
    x = invalid_set_format cmd

    own : LogEntry
    own = added t (length n.raft.logs) cmd

    refused : apply_log u own n.kv ≡ (err x, n.kv)
    refused =
        apply_log-set_colon u key value own n.kv (rw h.kv_applied (omega (arith, h.applied_le)))
          refl colon

    blocked :
        apply_committed_logs u (grown n.raft t cmd, n.kv)
        ≡ (err (failed x), (grown n.raft t cmd, n.kv))
    blocked = elim (grown_entries n a t cmd h b) [
      | inl (same, _) ↦ absurd (omega arith)
      | inr (_, e) ↦
          apply_committed_logs-some u (grown n.raft t cmd) n.kv (own ∷ [])
            (rw h.applied (omega arith)) e
          ∙ apply_entries-refused u own [] (grown n.raft t cmd) n.kv x refused unsaid
    ]

-- A Set with a colon in its key or value that enough peers take, or any if there are no peers, on a
-- leader with one entry due, is answered with an error though its entry is committed, and leaves
-- the leader stuck on that entry. The error's text does not hold the words that mean that an entry
-- is applied already, and the log is shorter than 2^63 - 2 entries.
pub set_colon-Stuck :
    (u : Unmarshal) (ss : List PeerStep) (key value : Str) (n : Node) (a : ℕ)
    → Settled n a
    → Taken ss n.raft.peers
    → length n.raft.logs ≡ suc a
    → 0 < occurrences b':' key + occurrences b':' value
    → says_applied (invalid_set_format (format_set key value)) ≡ false
    → suc (suc (length n.raft.logs)) < two_63
    → let x = invalid_set_format (format_set key value) in
      let (reply, n') = set u ss key value n in
      (reply ≡ refuse (failed_to_replicate x))
      × (n'.raft.commit_index ≡ pos (suc (length n.raft.logs)))
      × Stuck u x n'
set_colon-Stuck u ss key value n a h taken l colon unsaid b =
    let w = put key value in
    let (base, keeps, e) = handle-commit_write u ss w n h.leads taken h.counts (omega (arith, b)) in
    let m : Node = record n { raft = base } in
    let b' : suc (suc (length m.raft.logs)) < two_63 = rw keeps.logs b in
    let l' : length m.raft.logs ≡ suc a = ap length keeps.logs ∙ l in
    let (reply, kv, one, committed, stuck) =
      subst (StuckAt u (invalid_set_format (format_set key value)) n) (sym e) (
        Keeps-StuckAt u _ n base (commit_write u n.raft.current_term w m) keeps (
          commit_write-colon u n.raft.current_term key value m a (Keeps-Settled n a base h keeps) l'
            colon unsaid b')) in
    (reply, committed, stuck)
