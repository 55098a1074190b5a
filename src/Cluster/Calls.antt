-- ===== src/Cluster/Calls.antt =====
-- What the calls of one write come to, peer by peer (ddbr-server/infra/replication.go).
use ddbr.Common.{
  ℕ, suc, ◌+◌, ◌<◌, ◌≡◌, refl, ap, ◌∙◌, true, false, List, [], ◌∷◌, ◌++◌, map, Option, none, some,
  arith, length, inl, inr, Bool-cases,
}
use ddbr.Common.Eq.{Str, str_Eq, ◌==◌}
use ddbr.Common.Int.{ℤ, pos, two_63, ◌+ℤ◌}
use ddbr.Common.Dict.{insert}
use ddbr.Entry.{LogEntry, new_entry, IsConsecutive}
use ddbr.Rpc.{AppendEntriesReq}
use ddbr.Hosts.{contains, Distinct}
use ddbr.RaftState.{RaftState}
use ddbr.Replication.{
  PeerStep, ask, answer, threshold, peer_next, pre_commit_request, pre_commit_ask,
  pre_commit_answer, commit_request,
}
use ddbr.Replication.Quorum.{acks}
use ddbr.Service.{WriteResp, Node}
use ddbr.Service.Append.{Taken, next_entry-length}
use ddbr.Election.{RaftStateMachine}
use ddbr.Election.Append.{UnmarshalEntry, append_entries, append_logs, step_down, reply}
use ddbr.Cluster.{Peer, handle_append_entries, call_peer, call_peers, confirm, write_through}
use ddbr.Kv.Apply.{Write, encode}
use ddbr.Kv.Command.{Unmarshal}
use ddbr.RaftState.Log.Append.{append_log-next}
use ddbr.Service.Settled.{handle}

abbrev pub address_of : Peer → Str
address_of m = m.address

abbrev pub logs_of : Peer → List LogEntry
logs_of m = m.machine.logs

abbrev pub All : (Peer → Type 0) → List Peer → Type 0
All P [] = Unit {0}
All P (m ∷ ms) = P m × All P ms

acks-append : (xs ys : List PeerStep) → acks (xs ++ ys) ≡ acks xs + acks ys
acks-append [] ys = omega arith
acks-append (ask peer ∷ xs) ys = acks-append xs ys
acks-append (answer peer resp ∷ xs) ys = ground (arith, acks-append xs ys)

length-map : (ms : List Peer) → length (map address_of ms) ≡ length ms
length-map [] = refl
length-map (m ∷ ms) = ap suc (length-map ms)

-- All peers are enough.
pub all-Taken :
    (steps : List PeerStep) (peers : List Str) (ms : List Peer)
    → peers ≡ map address_of ms
    → acks steps ≡ length ms
    → Taken steps peers
unfolding threshold
all-Taken steps peers ms p a = inr (omega (arith, ap length p, length-map ms, a))

-- A request without entries leaves the log.
pub no_entries-logs :
    (v : UnmarshalEntry) (now : ℕ) (req : AppendEntriesReq) (sm : RaftStateMachine)
    → req.entries ≡ []
    → (append_entries v now req sm).1.logs ≡ sm.logs
unfolding append_entries append_logs step_down
no_entries-logs v now req sm e = rw e (ground arith)

map-confirmed :
    (v : UnmarshalEntry) (now : ℕ) (entry : LogEntry) (rs : RaftState) (ms : List Peer)
    → map logs_of (map (λ m. (handle_append_entries v now (commit_request rs entry) m).1) ms)
      ≡ map logs_of ms
unfolding handle_append_entries commit_request
map-confirmed v now entry rs [] = refl
map-confirmed v now entry rs (m ∷ ms) =
    rw
      (
        no_entries-logs v now (commit_request rs entry) m.machine refl,
        map-confirmed v now entry rs ms,
      )
      refl

-- The confirmation of a commit changes no peer's log.
pub confirm-logs :
    (v : UnmarshalEntry) (now : ℕ) (entry : LogEntry) (o : Option WriteResp) (rs : RaftState)
    (ms : List Peer)
    → map logs_of (confirm v now entry o rs ms) ≡ map logs_of ms
confirm-logs v now entry none rs ms = refl
confirm-logs v now entry (some resp) rs ms = elim (Bool-cases resp.success) [
  | inl yes_sent ↦ rw yes_sent (map-confirmed v now entry rs ms)
  | inr unsent ↦ rw unsent refl
]

-- The state after a peer took the entry
abbrev pub taken_by : Str → LogEntry → RaftState → RaftState
taken_by peer entry rs = record rs {
  match_index = insert peer entry.index rs.match_index;
  next_index = insert peer (entry.index +ℤ pos 1) rs.next_index;
}

-- A call that a peer answers with success
pub call_peer-success :
    (v : UnmarshalEntry) (now : ℕ) (entry : LogEntry) (rs asked : RaftState) (next term : ℤ)
    (m : Peer)
    → peer_next rs m.address ≡ (asked, next)
    → (append_entries v now (pre_commit_request asked next entry) m.machine).0 ≡ reply true term
    → let steps = ask m.address ∷ answer m.address (record { term = term; success = true }) ∷ [] in
      let machine = (append_entries v now (pre_commit_request asked next entry) m.machine).1 in
      call_peer v now entry rs m
      ≡ (steps, taken_by m.address entry asked, record m { machine = machine })
unfolding call_peer pre_commit_ask pre_commit_answer
call_peer-success v now entry rs asked next term m p q = rw (p, q) refl

-- Calls that each peer answers with success: `Fits rs m` says that the leader's state is fit for
-- the call of `m`.
module _ (v : UnmarshalEntry) (now : ℕ) (entry : LogEntry) (Fits : RaftState → Peer → Type 0)
    (left : Peer → List LogEntry)
    (one_ack : (rs : RaftState) (m : Peer) → Fits rs m → acks (call_peer v now entry rs m).0 ≡ 1)
    (leaves : (rs : RaftState) (m : Peer)
      → Fits rs m
      → logs_of (call_peer v now entry rs m).2 ≡ left m)
    (still_fits : (rs : RaftState) (m m' : Peer)
      → Fits rs m
      → Fits rs m'
      → (m'.address == m.address) ≡ false
      → Fits (call_peer v now entry rs m).1 m') where
  pub All-kept :
      (rs : RaftState) (m : Peer) (ms : List Peer)
      → Fits rs m
      → All (Fits rs) ms
      → contains (map address_of ms) m.address ≡ false
      → All (Fits (call_peer v now entry rs m).1) ms
  unfolding contains
  All-kept rs m [] f fs d = tt
  All-kept rs m (m' ∷ ms) f fs d =
      (still_fits rs m m' f fs.0 (ground arith), All-kept rs m ms f fs.1 (ground arith))

  pub call_peers-acks :
      (rs : RaftState) (ms : List Peer)
      → Distinct (map address_of ms)
      → All (Fits rs) ms
      → (acks (call_peers v now entry rs ms).0 ≡ length ms)
        × (map logs_of (call_peers v now entry rs ms).2 ≡ map left ms)
  unfolding call_peers
  call_peers-acks rs [] d fs = (refl, refl)
  call_peers-acks rs (m ∷ ms) d fs =
      let steps = (call_peer v now entry rs m).0 in
      let rs' = (call_peer v now entry rs m).1 in
      let (count, logs) = call_peers-acks rs' ms d.1 (All-kept rs m ms fs.0 fs.1 d.0) in
      (
        acks-append steps (call_peers v now entry rs' ms).0
            ∙ omega (arith, count, one_ack rs m fs.0),
        rw (leaves rs m fs.0, logs) refl,
      )

-- A write on a leader whose log counts from 1, in terms of its new entry.
pub write-calls :
    (u : Unmarshal) (v : UnmarshalEntry) (now : ℕ) (w : Write) (n : Node) (ms : List Peer)
    → IsConsecutive 0 n.raft.logs
    → suc (length n.raft.logs) < two_63
    → let e = new_entry n.raft.current_term (pos (suc (length n.raft.logs))) (encode w) in
      let (steps, rs, ms') =
        call_peers v now e (record n.raft { logs = n.raft.logs ++ e ∷ [] }) ms in
      let r = handle u steps w n in
      write_through u v now w n ms ≡ (r, confirm v now e r.0 r.1.raft ms')
unfolding write_through
write-calls u v now w n ms c b =
    let e = new_entry n.raft.current_term (pos (suc (length n.raft.logs))) (encode w) in
    rw (next_entry-length n.raft (encode w) c b, append_log-next n.raft e c refl) refl
