-- ===== src/Cluster/Phase.antt =====
-- The leader's state after the calls of a write (ddbr-server/infra/replication.go).
use ddbr.Common.{ℕ, ◌≡◌, refl, ap, ◌∙◌, false, List, [], ◌∷◌, ◌++◌, map, Option, none, some, arith}
use ddbr.Common.Eq.{Str, str_Eq, ◌==◌, str_eq_iff}
use ddbr.Common.Int.{ℤ}
use ddbr.Common.Dict.{lookup}
use ddbr.Entry.{LogEntry}
use ddbr.Rpc.{AppendEntriesResp}
use ddbr.Hosts.{contains, Distinct}
use ddbr.RaftState.{RaftState}
use ddbr.Replication.{PeerStep, Phase, phase_step, run_phase, pre_commit_ask}
use ddbr.Election.Append.{UnmarshalEntry}
use ddbr.Cluster.{Peer, answer_steps, call_peer, call_peers}
use ddbr.Cluster.Calls.{address_of, All}

run_phase-append :
    (entry : LogEntry) (xs ys : List PeerStep) (p : Phase)
    → run_phase entry (xs ++ ys) p ≡ run_phase entry ys (run_phase entry xs p)
unfolding run_phase
run_phase-append entry [] ys p = refl
run_phase-append entry (x ∷ xs) ys p = run_phase-append entry xs ys (phase_step entry x p)

-- The steps of a peer that was asked, from a phase in which the leader has the state `rs`
answer_steps-raft :
    (entry : LogEntry) (peer : Str) (rs : RaftState) (o : Option AppendEntriesResp) (p : Phase)
    → p.raft ≡ rs
    → (run_phase entry (answer_steps peer entry (pre_commit_ask rs peer entry).0 o).0 p).raft
      ≡ (answer_steps peer entry (pre_commit_ask rs peer entry).0 o).1
unfolding run_phase phase_step
answer_steps-raft entry peer rs none p e = ap (λ r. (pre_commit_ask r peer entry).0) e
answer_steps-raft entry peer rs (some resp) p e = rw e refl

call_peer-raft :
    (v : UnmarshalEntry) (now : ℕ) (entry : LogEntry) (rs : RaftState) (m : Peer) (p : Phase)
    → p.raft ≡ rs
    → (run_phase entry (call_peer v now entry rs m).0 p).raft ≡ (call_peer v now entry rs m).1
unfolding call_peer
call_peer-raft v now entry rs m p e = answer_steps-raft entry m.address rs _ p e

-- The schedule that the calls make leads to the state that they make.
pub call_peers-raft :
    (v : UnmarshalEntry) (now : ℕ) (entry : LogEntry) (rs : RaftState) (ms : List Peer) (p : Phase)
    → p.raft ≡ rs
    → (run_phase entry (call_peers v now entry rs ms).0 p).raft ≡ (call_peers v now entry rs ms).1
unfolding call_peers run_phase
call_peers-raft v now entry rs [] p e = e
call_peers-raft v now entry rs (m ∷ ms) p e =
    let (steps, rs', m') = call_peer v now entry rs m in
    let rest = (call_peers v now entry rs' ms).0 in
    ap (λ (x : Phase). x.raft) (run_phase-append entry steps rest p)
    ∙ call_peers-raft v now entry rs' ms (run_phase entry steps p)
        (call_peer-raft v now entry rs m p e)

-- A call that leaves the leader with the next index `z` for the peer and nothing else of this kind
-- changed
pub record Sets (z : ℤ) (rs rs' : RaftState) (peer : Str) : Type 0 where
  pub same_term : rs'.current_term ≡ rs.current_term
  pub set : lookup peer rs'.next_index ≡ some z
  pub kept : (a : Str) → (a == peer) ≡ false → lookup a rs'.next_index ≡ lookup a rs.next_index

module _ (v : UnmarshalEntry) (now : ℕ) (entry : LogEntry) (z : ℤ)
    (Fits : RaftState → Peer → Type 0)
    (sets : (rs : RaftState) (m : Peer)
      → Fits rs m
      → Sets z rs (call_peer v now entry rs m).1 m.address)
    (still_fits : (rs : RaftState) (m : Peer) (ms : List Peer)
      → Fits rs m
      → All (Fits rs) ms
      → contains (map address_of ms) m.address ≡ false
      → All (Fits (call_peer v now entry rs m).1) ms) where
  calls-keep :
      (rs : RaftState) (ms : List Peer) (a : Str)
      → contains (map address_of ms) a ≡ false
      → Distinct (map address_of ms)
      → All (Fits rs) ms
      → lookup a (call_peers v now entry rs ms).1.next_index ≡ lookup a rs.next_index
  unfolding call_peers contains
  calls-keep rs [] a c d fs = refl
  calls-keep rs (m ∷ ms) a c d fs =
      let rs' = (call_peer v now entry rs m).1 in
      let other : (a == m.address) ≡ false =
        ground (arith, str_eq_iff a m.address, str_eq_iff m.address a) in
      calls-keep rs' ms a (ground arith) d.1 (still_fits rs m ms fs.0 fs.1 d.0)
      ∙ (sets rs m fs.0).kept a other

  -- Every peer's next index after the calls
  pub call_peers-Sets :
      (rs : RaftState) (ms : List Peer)
      → Distinct (map address_of ms)
      → All (Fits rs) ms
      → let rs' = (call_peers v now entry rs ms).1 in
        (rs'.current_term ≡ rs.current_term)
        × All (λ m. lookup m.address rs'.next_index ≡ some z) ms
  unfolding call_peers
  call_peers-Sets rs [] d fs = (refl, tt)
  call_peers-Sets rs (m ∷ ms) d fs =
      let rs' = (call_peer v now entry rs m).1 in
      let one = sets rs m fs.0 in
      let fs' = still_fits rs m ms fs.0 fs.1 d.0 in
      let (term, all) = call_peers-Sets rs' ms d.1 fs' in
      (term ∙ one.same_term, (calls-keep rs' ms m.address d.0 d.1 fs' ∙ one.set, all))
