-- ===== src/Replication/Quorum.antt =====
-- When ReplicateLogs (ddbr-server/infra/replication.go) commits.
use ddbr.Common.{
  ℕ, suc, ◌+◌, ◌*◌, ◌/◌, ◌%◌, ◌<◌, ◌≡◌, ◌↔◌, ◌≢◌, inl, inr, refl, ◌∙◌, Bool, true, false,
  Bool-cases, leb, ltb, ◌&&◌, List, [], ◌∷◌, arith, length, if◌then◌else◌,
}
use ddbr.Common.Eq.{Str, str_Eq}
use ddbr.Common.Int.{negsuc}
use ddbr.Common.Result.{ok}
use ddbr.Entry.{LogEntry}
use ddbr.Kv.Command.{Unmarshal}
use ddbr.Kv.Machine.{StateMachine}
use ddbr.RaftState.{RaftState, set_commit_index}
use ddbr.RaftState.Apply.Rest.{apply_committed_logs-SameRest}
use ddbr.Replication.{
  PeerStep, ask, answer, Phase, phase_step, run_phase, threshold, replicate_to, replicate_logs,
  peer_next, commit_log, pre_committed,
}

-- The answers of a schedule that took the entry.
abbrev pub acks : List PeerStep → ℕ
acks [] = 0
acks (ask peer ∷ ss) = acks ss
acks (answer peer resp ∷ ss) = if resp.success then suc (acks ss) else acks ss

pub count-run_phase :
    (entry : LogEntry) (ss : List PeerStep) (p : Phase)
    → (run_phase entry ss p).count ≡ p.count + acks ss
unfolding run_phase phase_step
count-run_phase entry [] p = omega arith
count-run_phase entry (ask peer ∷ ss) p = count-run_phase entry ss (phase_step entry (ask peer) p)
count-run_phase entry (answer peer resp ∷ ss) p =
    ground (arith, count-run_phase entry ss (phase_step entry (answer peer resp) p))

-- What the sections of the goroutines leave alone.
pub record Keeps (r s : RaftState) : Type 0 where
  pub logs : s.logs ≡ r.logs
  pub commit_index : s.commit_index ≡ r.commit_index
  pub last_applied : s.last_applied ≡ r.last_applied
  pub peers : s.peers ≡ r.peers

Keeps-phase_step :
    (entry : LogEntry) (s : PeerStep) (p : Phase) → Keeps p.raft (phase_step entry s p).raft
unfolding phase_step peer_next
Keeps-phase_step entry (ask peer) p = ground arith
Keeps-phase_step entry (answer peer resp) p = ground arith

pub Keeps-run_phase :
    (entry : LogEntry) (ss : List PeerStep) (p : Phase) → Keeps p.raft (run_phase entry ss p).raft
unfolding run_phase
Keeps-run_phase entry [] p = record {
  logs = refl;
  commit_index = refl;
  last_applied = refl;
  peers = refl;
}
Keeps-run_phase entry (s ∷ ss) p =
    let a = Keeps-phase_step entry s p in
    let b = Keeps-run_phase entry ss (phase_step entry s p) in
    record {
      logs = b.logs ∙ a.logs;
      commit_index = b.commit_index ∙ a.commit_index;
      last_applied = b.last_applied ∙ a.last_applied;
      peers = b.peers ∙ a.peers;
    }

-- The schedule of a ReplicateLogs call on this state, up to the end of the wait.
abbrev phase_of : LogEntry → List PeerStep → RaftState → Phase
phase_of entry ss rs = run_phase entry ss (record { raft = rs; count = 1; sent = [] })

replicate_to-too_few :
    (u : Unmarshal) (ss : List PeerStep) (entry : LogEntry) (peers : List Str) (rs : RaftState)
    (sm : StateMachine)
    → peers ≢ []
    → suc (acks ss) < threshold peers
    → let p = phase_of entry ss rs in
      replicate_to u ss entry peers (rs, sm) ≡ (ok (negsuc 0), p.sent, (p.raft, sm))
unfolding replicate_to
replicate_to-too_few u ss entry [] rs sm ne few = absurd (ne refl)
replicate_to-too_few u ss entry (peer ∷ peers) rs sm ne few =
    ground (arith, count-run_phase entry ss (record { raft = rs; count = 1; sent = [] }))

commit_log-index :
    (u : Unmarshal) (entry : LogEntry) (rs : RaftState) (sm : StateMachine)
    → (commit_log u entry (rs, sm)).2.0.commit_index ≡ entry.index
unfolding commit_log
commit_log-index u entry rs sm =
    (apply_committed_logs-SameRest u (set_commit_index entry.index rs) sm).commit_index

-- At least half of the peers and the leader have the entry, the leader's own copy counted.
abbrev pub half_took : List PeerStep → List Str → Bool
half_took ss peers = ltb (length peers) (2 * suc (acks ss))

replicate_to-index :
    (u : Unmarshal) (ss : List PeerStep) (entry : LogEntry) (peers : List Str) (rs : RaftState)
    (sm : StateMachine)
    → (replicate_to u ss entry peers (rs, sm)).2.0.commit_index
      ≡ (if half_took ss peers then entry.index else rs.commit_index)
unfolding replicate_to threshold
replicate_to-index u ss entry [] rs sm =
    let yes_all : half_took ss [] ≡ true = ground arith in
    rw yes_all (commit_log-index u entry (pre_committed entry rs) sm)
replicate_to-index u ss entry (peer ∷ peers) rs sm =
    let p = phase_of entry ss rs in
    let q = count-run_phase entry ss (record { raft = rs; count = 1; sent = [] }) in
    elim (Bool-cases (half_took ss (peer ∷ peers))) [
      | inl t ↦
          let e : leb (length (peer ∷ peers) / 2 + 1) p.count ≡ true = ground (arith, t, q) in
          rw (t, e) (commit_log-index u entry (pre_committed entry p.raft) sm)
      | inr f ↦
          let e : leb (length (peer ∷ peers) / 2 + 1) p.count ≡ false = ground (arith, f, q) in
          rw (f, e)
            (Keeps-run_phase entry ss (record { raft = rs; count = 1; sent = [] })).commit_index
    ]

-- On a leader with peers, if too few answers took the entry, ReplicateLogs returns -1; the log, the
-- commit index, the last applied index, the peers and the key-value store are as before.
pub replicate_logs-too_few :
    (u : Unmarshal) (ss : List PeerStep) (entry : LogEntry) (rs : RaftState) (sm : StateMachine)
    → rs.peers ≢ []
    → suc (acks ss) < threshold rs.peers
    → let (r, sent, (rs', sm')) = replicate_logs u true ss entry (rs, sm) in
      (r ≡ ok (negsuc 0)) × Keeps rs rs' × (sm' ≡ sm)
unfolding replicate_logs
replicate_logs-too_few u ss entry rs sm some_peers few =
    rw (replicate_to-too_few u ss entry rs.peers rs sm some_peers few)
      (refl, Keeps-run_phase entry ss (record { raft = rs; count = 1; sent = [] }), refl)

-- For every schedule of the goroutines, and whatever the store makes of the entries that are
-- applied: the commit index after ReplicateLogs is that of the entry if the node is the leader and
-- the answers that took the entry, with the leader's own copy, are at least half of the leader and
-- its peers; else it is as it was.
pub replicate_logs-quorum :
    (u : Unmarshal) (is_master : Bool) (ss : List PeerStep) (entry : LogEntry) (rs : RaftState)
    (sm : StateMachine)
    → (replicate_logs u is_master ss entry (rs, sm)).2.0.commit_index ≡ (
        if is_master && ltb (length rs.peers) (2 * suc (acks ss))
        then entry.index
        else rs.commit_index)
unfolding replicate_logs
replicate_logs-quorum u true ss entry rs sm = replicate_to-index u ss entry rs.peers rs sm
replicate_logs-quorum u false ss entry rs sm = refl

-- The threshold is more than half of all nodes, the leader and its peers, exactly if the number of
-- peers is even: of four nodes it asks for two.
pub threshold_majority :
    (peers : List Str) → (length peers + 1 < 2 * threshold peers) ↔ (length peers % 2 ≡ 0)
unfolding threshold
threshold_majority peers = ground arith
