-- ===== src/Service/Append.antt =====
-- The first half of Set and Delete on a leader (ddbr-server/service/kv_impl.go with infra/
-- replication.go): the new entry goes to the end of the log and is committed if enough peers take
-- it.
use ddbr.Common.{
  ℕ, suc, ◌+◌, ◌<◌, ◌≤◌, ◌≡◌, ◌≢◌, ◌⊎◌, inl, inr, leb, refl, ap, ◌∙◌, Bool, true, false, List, [],
  ◌∷◌, ◌++◌, arith, length, if◌then◌else◌,
}
use ddbr.Common.Eq.{Str}
use ddbr.Common.Int.{ℤ, pos, two_63, pos-+ℤ_one, eqb_ℤ}
use ddbr.Entry.{LogEntry, new_entry, IsConsecutive, last_index-length}
use ddbr.Kv.Command.{Unmarshal}
use ddbr.Kv.Machine.{StateMachine}
use ddbr.RaftState.{RaftState, set_logs}
use ddbr.RaftState.Log.{get_last_log_index}
use ddbr.RaftState.Log.Append.{append_log-next}
use ddbr.Rpc.{AppendEntriesReq}
use ddbr.Replication.{
  PeerStep, Phase, run_phase, threshold, Outcome, commit_log, mark_pre_committed, pre_committed,
  after_sending, replicate_to, replicate_logs,
}
use ddbr.Replication.Quorum.{acks, count-run_phase, Keeps, Keeps-run_phase}
use ddbr.RaftState.Apply.{panicked, failed}
use ddbr.Common.Result.{ok, err}
use ddbr.Service.{Node, next_entry, finish_write, log_write}

mark-past :
    (n i : ℕ) (logs : List LogEntry)
    → IsConsecutive n logs
    → n + length logs < i
    → mark_pre_committed (pos i) logs ≡ logs
unfolding mark_pre_committed
mark-past n i [] c l = refl
mark-past n i (e ∷ logs) c l = ground (arith, mark-past (suc n) i logs c.1)

mark-append :
    (i : ℤ) (xs ys : List LogEntry)
    → mark_pre_committed i (xs ++ ys) ≡ mark_pre_committed i xs ++ mark_pre_committed i ys
unfolding mark_pre_committed
mark-append i [] ys = refl
mark-append i (x ∷ xs) ys =
    ap (λ l. (if eqb_ℤ x.index i then record x { pre_committed = true } else x) ∷ l)
      (mark-append i xs ys)

-- The entry that a write adds to a log of this length, as the log holds it in the end.
abbrev pub added : ℤ → ℕ → Str → LogEntry
added term n cmd = record {
  term = term;
  index = pos (suc n);
  command = cmd;
  pre_committed = true;
  is_read = false;
}

mark-last :
    (term : ℤ) (cmd : Str) (n : ℕ)
    → mark_pre_committed (pos (suc n)) (new_entry term (pos (suc n)) cmd ∷ [])
      ≡ added term n cmd ∷ []
unfolding mark_pre_committed
mark-last term cmd n = ground arith

mark-added :
    (term : ℤ) (cmd : Str) (logs : List LogEntry)
    → IsConsecutive 0 logs
    → mark_pre_committed
        (pos (suc (length logs)))
        (logs ++ new_entry term (pos (suc (length logs))) cmd ∷ [])
      ≡ logs ++ added term (length logs) cmd ∷ []
mark-added term cmd logs c =
    mark-append (pos (suc (length logs))) logs (new_entry term (pos (suc (length logs))) cmd ∷ [])
    ∙ rw (mark-past 0 (suc (length logs)) logs c (omega arith))
        (ap (◌++◌ logs) (mark-last term cmd (length logs)))

pub next_entry-length :
    (rs : RaftState) (cmd : Str)
    → IsConsecutive 0 rs.logs
    → suc (length rs.logs) < two_63
    → next_entry rs cmd ≡ new_entry rs.current_term (pos (suc (length rs.logs))) cmd
unfolding next_entry get_last_log_index
next_entry-length rs cmd c b =
    rw (last_index-length rs.logs c, pos-+ℤ_one (length rs.logs) b) (ground arith)

-- Enough answers of a schedule take the entry, or there is nobody to ask.
abbrev pub Taken : List PeerStep → List Str → Type 0
Taken ss peers = (peers ≡ []) ⊎ (threshold peers ≤ suc (acks ss))

-- The state that the wait of ReplicateLogs leaves, after the schedule if there is one, and the
-- commit that follows
record Committing (u : Unmarshal) (ss : List PeerStep) (e : LogEntry) (peers : List Str)
    (rs : RaftState) (kv : StateMachine) : Type 0 where
  raft : RaftState
  keeps : Keeps rs raft
  after : peers ≢ [] → raft ≡ (run_phase e ss (record { raft = rs; count = 1; sent = [] })).raft
  sent : List (Str × AppendEntriesReq)
  commits :
      replicate_to u ss e peers (rs, kv)
      ≡ after_sending sent (commit_log u e (pre_committed e raft, kv))

replicate_to-Taken :
    (u : Unmarshal) (ss : List PeerStep) (e : LogEntry) (peers : List Str) (rs : RaftState)
    (kv : StateMachine)
    → Taken ss peers
    → Committing u ss e peers rs kv
unfolding replicate_to
replicate_to-Taken u ss e [] rs kv t = record {
  raft = rs;
  keeps = record { logs = refl; commit_index = refl; last_applied = refl; peers = refl };
  after = λ some_peers. absurd (some_peers refl);
  sent = [];
  commits = refl;
}
replicate_to-Taken u ss e (peer ∷ peers) rs kv (inl t) = absurd (ground arith)
replicate_to-Taken u ss e (peer ∷ peers) rs kv (inr t) =
    let start : Phase = record { raft = rs; count = 1; sent = [] } in
    let p = run_phase e ss start in
    let enough : leb (threshold (peer ∷ peers)) p.count ≡ true =
      ground (arith, count-run_phase e ss start, t) in
    record {
      raft = p.raft;
      keeps = Keeps-run_phase e ss start;
      after = λ _. refl;
      sent = p.sent;
      commits = rw enough refl;
    }

replicate_logs-master :
    (u : Unmarshal) (is_master : Bool) (ss : List PeerStep) (e : LogEntry) (rs : RaftState)
    (kv : StateMachine)
    → is_master ≡ true
    → replicate_logs u is_master ss e (rs, kv) ≡ replicate_to u ss e rs.peers (rs, kv)
unfolding replicate_logs
replicate_logs-master u true ss e rs kv m = refl
replicate_logs-master u false ss e rs kv m = absurd (ground arith)

finish_write-sent :
    (write : StateMachine → StateMachine) (n : Node) (rs : RaftState) (e : LogEntry)
    (sent : List (Str × AppendEntriesReq)) (o : Outcome)
    → finish_write write n e (after_sending sent o)
      ≡ finish_write write (record n { raft = rs }) e o
unfolding finish_write
finish_write-sent write n rs e sent (ok c, cs, s) = refl
finish_write-sent write n rs e sent (err panicked, cs, s) = refl
finish_write-sent write n rs e sent (err (failed x), cs, s) = refl

-- A write that enough peers take commits its entry, at the end of the log: `base` is the state
-- before, but for what the answers changed.
pub record Logged (u : Unmarshal) (ss : List PeerStep) (cmd : Str)
    (write : StateMachine → StateMachine) (n : Node) : Type 0 where
  pub base : RaftState
  pub keeps : Keeps n.raft base
  pub after :
      let e = new_entry n.raft.current_term (pos (suc (length n.raft.logs))) cmd in
      let start : Phase = record {
        raft = record n.raft { logs = n.raft.logs ++ e ∷ [] };
        count = 1;
        sent = [];
      } in
      n.raft.peers ≢ [] → base ≡ record (run_phase e ss start).raft { logs = n.raft.logs }
  pub commits :
      let e = new_entry n.raft.current_term (pos (suc (length base.logs))) cmd in
      let x = added n.raft.current_term (length base.logs) cmd in
      log_write u ss cmd write n
      ≡ finish_write write
          (record n { raft = base })
          e
          (commit_log u e (record base { logs = base.logs ++ x ∷ [] }, n.kv))

pub log_write-Taken :
    (u : Unmarshal) (ss : List PeerStep) (cmd : Str) (write : StateMachine → StateMachine)
    (n : Node)
    → n.is_master ≡ true
    → Taken ss n.raft.peers
    → IsConsecutive 0 n.raft.logs
    → suc (length n.raft.logs) < two_63
    → Logged u ss cmd write n
unfolding log_write
log_write-Taken u ss cmd write n m t c b =
    let rs = n.raft in
    let e = new_entry rs.current_term (pos (suc (length rs.logs))) cmd in
    let k = replicate_to-Taken u ss e rs.peers (record rs { logs = rs.logs ++ e ∷ [] }) n.kv t in
    let logs =
      ap (mark_pre_committed (pos (suc (length rs.logs)))) k.keeps.logs
      ∙ mark-added rs.current_term cmd rs.logs c in
    let base = record k.raft { logs = rs.logs } in
    record {
      base = base;
      keeps = record {
        logs = refl;
        commit_index = k.keeps.commit_index;
        last_applied = k.keeps.last_applied;
        peers = k.keeps.peers;
      };
      after = λ some_peers. ap (λ x. set_logs rs.logs x) (k.after some_peers);
      commits =
          rw (next_entry-length rs cmd c b, append_log-next rs e c refl)
            (ap (finish_write write n e)
                (replicate_logs-master u n.is_master ss e _ n.kv m ∙ k.commits)
              ∙ finish_write-sent write n base e k.sent
                  (commit_log u e (pre_committed e k.raft, n.kv))
              ∙ ap
                  (λ l.
                    finish_write write (record n { raft = base }) e
                      (commit_log u e (record k.raft { logs = l }, n.kv)))
                  logs);
    }
