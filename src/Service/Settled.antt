-- ===== src/Service/Settled.antt =====
-- The state of a leader between writes that enough peers take (ddbr-server/service/kv_impl.go with
-- infra/replication.go, raft_state.go and state_machine.go).
use ddbr.Common.{
  ℕ, zero, suc, ◌-◌, ◌≤◌, ◌<◌, ◌≡◌, ◌≢◌, refl, sym, subst, ap, ◌∙◌, ◌⊎◌, inl, inr, true, List, [],
  ◌∷◌, ◌++◌, some, arith, length, length-append, take, drop, drop-append_length, drop-length,
  take-nil,
}
use ddbr.Common.Eq.{Str, str_Eq}
use ddbr.Common.Int.{ℤ, pos, two_63}
use ddbr.Common.Dict.{lookup-insert, lookup-delete}
use ddbr.Common.Result.{ok, err}
use ddbr.Entry.{LogEntry, new_entry, IsConsecutive, IsConsecutive-append}
use ddbr.Kv.Command.{Unmarshal}
use ddbr.Kv.Machine
use ddbr.Kv.Machine.{StateMachine, apply_log}
use ddbr.Kv.Apply.{View, Write, put, drop_key, encode, write_view}
use ddbr.RaftState.{RaftState}
use ddbr.RaftState.Apply.{panicked, failed, apply_committed_logs, committed_entries}
use ddbr.RaftState.Apply.Range.{committed_entries-take}
use ddbr.Replication.{PeerStep, Phase, Outcome, run_phase, commit_log}
use ddbr.RaftState.Apply.Rest.{SameRest, apply_committed_logs-SameRest}
use ddbr.Replication.Quorum.{Keeps}
use ddbr.Service.{Node, Handled, done, set, delete, finish_write, log_write}
use ddbr.Service.Append.{added, Taken, log_write-Taken}

-- What holds of a leader between two such writes, with `a` the last applied index: the log counts
-- from 1, all of it is committed, and at most its last entry is not applied.
pub record Settled (n : Node) (a : ℕ) : Type 0 where
  pub leads : n.is_master ≡ true
  pub counts : IsConsecutive 0 n.raft.logs
  pub commits : n.raft.commit_index ≡ pos (length n.raft.logs)
  pub applied : n.raft.last_applied ≡ pos a
  pub kv_applied : n.kv.last_applied_index ≡ pos a
  pub applied_le : a ≤ length n.raft.logs
  pub applied_ge : length n.raft.logs ≤ suc a

-- The handler of a write, and what it does to the store directly.
abbrev pub handle : Unmarshal → List PeerStep → Write → Node → Handled
handle u ss (put k v) n = set u ss k v n
handle u ss (drop_key k) n = delete u ss k n

abbrev pub write_store : Write → StateMachine → StateMachine
write_store (put k v) sm = Machine.set sm k v
write_store (drop_key k) sm = Machine.remove sm k

handle-log_write :
    (u : Unmarshal) (ss : List PeerStep) (w : Write) (n : Node)
    → n.is_master ≡ true
    → handle u ss w n ≡ log_write u ss (encode w) (write_store w) n
unfolding set delete
handle-log_write u ss (put k v) n m = rw m
handle-log_write u ss (drop_key k) n m = rw m

pub get-write_store :
    (w : Write) (sm : StateMachine) (j : Str)
    → Machine.get (write_store w sm) j ≡ write_view w (Machine.get sm) j
unfolding Machine.get Machine.set Machine.remove
get-write_store (put k v) sm j = lookup-insert k j v sm.entries
get-write_store (drop_key k) sm j = lookup-delete k j sm.entries

pub last-write_store :
    (w : Write) (sm : StateMachine) → (write_store w sm).last_applied_index ≡ sm.last_applied_index
unfolding Machine.set Machine.remove
last-write_store (put k v) sm = refl
last-write_store (drop_key k) sm = refl

pub write_view_twice :
    (w : Write) (f g m : View)
    → ((j : Str) → f j ≡ write_view w g j)
    → ((j : Str) → g j ≡ write_view w m j)
    → (j : Str) → f j ≡ write_view w m j
write_view_twice (put k v) f g m p q j = ground (arith, p j, q j)
write_view_twice (drop_key k) f g m p q j = ground (arith, p j, q j)

level : (n a : ℕ) → a ≤ n → n ≤ suc a → (n ≡ a) ⊎ (n ≡ suc a)
level n a p q = omega arith

two_left : (n a : ℕ) → n ≡ suc a → suc n - a ≡ suc (suc zero)
two_left n a e = omega arith

-- The raft state of a write of the term `t`, once the entry is in the log and committed.
abbrev pub grown : RaftState → ℤ → Str → RaftState
grown rs t cmd = record rs {
  logs = rs.logs ++ added t (length rs.logs) cmd ∷ [];
  commit_index = pos (suc (length rs.logs));
}

pub length-grown :
    (rs : RaftState) (t : ℤ) (cmd : Str) → length (grown rs t cmd).logs ≡ suc (length rs.logs)
length-grown rs t cmd = length-append rs.logs (added t (length rs.logs) cmd ∷ []) ∙ omega arith

pub grown-IsConsecutive :
    (rs : RaftState) (t : ℤ) (cmd : Str)
    → IsConsecutive 0 rs.logs
    → IsConsecutive 0 (grown rs t cmd).logs
grown-IsConsecutive rs t cmd c =
    IsConsecutive-append 0 rs.logs (added t (length rs.logs) cmd ∷ []) c
      (ap (λ k. pos (suc k)) (omega arith), tt)

pub grown_range :
    (rs : RaftState) (a : ℕ) (t : ℤ) (cmd : Str)
    → rs.last_applied ≡ pos a
    → a ≤ length rs.logs
    → suc (suc (length rs.logs)) < two_63
    → committed_entries (grown rs t cmd)
      ≡ some (take (suc (length rs.logs) - a) (drop (suc a) (grown rs t cmd).logs))
grown_range rs a t cmd l le b =
    committed_entries-take (grown rs t cmd) a (suc (length rs.logs)) l refl (omega arith)
      (omega (arith, length-grown rs t cmd))

-- A state that differs from a settled one in what the answers of peers change is settled.
pub Keeps-Settled :
    (n : Node) (a : ℕ) (base : RaftState)
    → Settled n a
    → Keeps n.raft base
    → Settled (record n { raft = base }) a
Keeps-Settled n a base h k = record {
  leads = h.leads;
  counts = subst (IsConsecutive 0) (sym k.logs) h.counts;
  commits = k.commit_index ∙ h.commits ∙ ap (λ l. pos (length l)) (sym k.logs);
  applied = k.last_applied ∙ h.applied;
  kv_applied = h.kv_applied;
  applied_le = rw k.logs h.applied_le;
  applied_ge = rw k.logs h.applied_ge;
}

-- The entries that ApplyCommittedLogs takes after a write: none, or the write's own.
pub grown_entries :
    (n : Node) (a : ℕ) (t : ℤ) (cmd : Str)
    → Settled n a
    → suc (suc (length n.raft.logs)) < two_63
    → ((length n.raft.logs ≡ a) × (committed_entries (grown n.raft t cmd) ≡ some []))
      ⊎ ((length n.raft.logs ≡ suc a)
          × (committed_entries (grown n.raft t cmd) ≡ some (added t (length n.raft.logs) cmd ∷ [])))
grown_entries n a t cmd h b = elim (level (length n.raft.logs) a h.applied_le h.applied_ge) [
  | inl e ↦ inl (
    e,
    grown_range n.raft a t cmd h.applied h.applied_le b
        ∙ rw
            (drop-length (suc a) (grown n.raft t cmd).logs
              (omega (arith, length-grown n.raft t cmd)))
            (ap some (take-nil (suc (length n.raft.logs) - a))),
  )
  | inr e ↦ inr (
    e,
    grown_range n.raft a t cmd h.applied h.applied_le b
        ∙ rw (
          drop-append_length (suc a) n.raft.logs (added t (length n.raft.logs) cmd ∷ []) (sym e),
          two_left (length n.raft.logs) a e,
        ),
  )
]

-- A write of the term `t` whose entry is in the log of the node, from the commit on
abbrev pub commit_write : Unmarshal → ℤ → Write → Node → Handled
commit_write u t w n =
    let e = new_entry t (pos (suc (length n.raft.logs))) (encode w) in
    let x = added t (length n.raft.logs) (encode w) in
    finish_write (write_store w) n e
      (commit_log u e (record n.raft { logs = n.raft.logs ++ x ∷ [] }, n.kv))

-- The reply and the state of a write whose entry ApplyCommittedLogs got through.
pub settled-finish :
    (u : Unmarshal) (t : ℤ) (w : Write) (n : Node) (rs : RaftState) (sm : StateMachine)
    → apply_committed_logs u (grown n.raft t (encode w), n.kv) ≡ (ok tt, (rs, sm))
    → rs.commit_index ≡ pos (suc (length n.raft.logs))
    → commit_write u t w n ≡ (
      some (record { success = true; message = done }),
      record n { raft = rs; kv = write_store w sm },
    )
unfolding finish_write commit_log
settled-finish u t w n rs sm e c = rw (e, finish_write) (rw c (ground arith))

finish_write-raft :
    (write : StateMachine → StateMachine) (n : Node) (e : LogEntry) (o : Outcome)
    → (finish_write write n e o).1.raft ≡ o.2.0
unfolding finish_write
finish_write-raft write n e (ok c, sent, s) = ground arith
finish_write-raft write n e (err panicked, sent, s) = refl
finish_write-raft write n e (err (failed x), sent, s) = refl

commit_write-SameRest :
    (u : Unmarshal) (t : ℤ) (w : Write) (n : Node)
    → SameRest (grown n.raft t (encode w)) (commit_write u t w n).1.raft
unfolding commit_log
commit_write-SameRest u t w n =
    subst (SameRest (grown n.raft t (encode w))) (sym (finish_write-raft (write_store w) n _ _))
      (apply_committed_logs-SameRest u (grown n.raft t (encode w)) n.kv)

-- The part of a write up to its commit
pub handle-commit_write :
    (u : Unmarshal) (ss : List PeerStep) (w : Write) (n : Node)
    → n.is_master ≡ true
    → Taken ss n.raft.peers
    → IsConsecutive 0 n.raft.logs
    → suc (length n.raft.logs) < two_63
    → (base : RaftState) × Keeps n.raft base
      × (handle u ss w n ≡ commit_write u n.raft.current_term w (record n { raft = base }))
handle-commit_write u ss w n m t c b =
    let g = log_write-Taken u ss (encode w) (write_store w) n m t c b in
    (g.base, g.keeps, handle-log_write u ss w n m ∙ g.commits)

-- The next indices and the term of a leader after a write whose schedule ran: those after the
-- schedule
pub handle-after :
    (u : Unmarshal) (ss : List PeerStep) (w : Write) (n : Node)
    → n.is_master ≡ true
    → n.raft.peers ≢ []
    → Taken ss n.raft.peers
    → IsConsecutive 0 n.raft.logs
    → suc (length n.raft.logs) < two_63
    → let e = new_entry n.raft.current_term (pos (suc (length n.raft.logs))) (encode w) in
      let start : Phase = record {
        raft = record n.raft { logs = n.raft.logs ++ e ∷ [] };
        count = 1;
        sent = [];
      } in
      let rs = (handle u ss w n).1.raft in
      (rs.current_term ≡ (run_phase e ss start).raft.current_term)
      × (rs.next_index ≡ (run_phase e ss start).raft.next_index)
      × (rs.logs ≡ n.raft.logs ++ added n.raft.current_term (length n.raft.logs) (encode w) ∷ [])
handle-after u ss w n m some_peers t c b =
    let g = log_write-Taken u ss (encode w) (write_store w) n m t c b in
    let rest = commit_write-SameRest u n.raft.current_term w (record n { raft = g.base }) in
    rw (handle-log_write u ss w n m ∙ g.commits) (
      rest.current_term ∙ ap (λ (x : RaftState). x.current_term) (g.after some_peers),
      rest.next_index ∙ ap (λ (x : RaftState). x.next_index) (g.after some_peers),
      rest.logs ∙ ap (λ l. l ++ added n.raft.current_term (length l) (encode w) ∷ []) g.keeps.logs,
    )
