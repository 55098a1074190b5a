-- ===== src/Cluster/Fresh.antt =====
-- What the first write of a new cluster comes to (ddbr-server/service/kv_impl.go with
-- infra/replication.go and raft_state_machine.go).
pub mod Twice
use ddbr.Common.{
  ℕ, suc, ◌+◌, ◌<◌, ◌≡◌, ◌≢◌, refl, sym, subst, ap, ◌∙◌, true, List, [], ◌∷◌, ◌++◌, map, Option,
  none, some, arith, length,
}
use ddbr.Common.Eq.{Str, str_Eq}
use ddbr.Common.Int.{pos, two_63}
use ddbr.Common.Dict.{lookup}
use ddbr.Common.Result.{err}
use ddbr.Entry.{LogEntry, new_entry}
use ddbr.Hosts.{Distinct}
use ddbr.Kv.Apply.{Write, encode, IsPlain, write_view}
use ddbr.Kv.Command.{Unmarshal}
use ddbr.Kv.Machine
use ddbr.RaftState.{RaftState, set_logs}
use ddbr.Replication.{Phase}
use ddbr.Service.{Node, WriteResp, Handled, done}
use ddbr.Service.Append.{added}
use ddbr.Service.Settled.{handle, handle-after}
use ddbr.Service.Writes.{IsSettled, Writes, handle-Writes}
use ddbr.Election.Append.{UnmarshalEntry}
use ddbr.Cluster.{Peer, call_peers, confirm, write_through}
use ddbr.Cluster.Calls.{address_of, logs_of, All, call_peers-acks, all-Taken, write-calls}
use ddbr.Cluster.Phase.{call_peers-raft, call_peers-Sets}
use ddbr.Cluster.Lost.{IsServed, write-lost}
use ddbr.Cluster.First.{IsFresh, Has, Fits, Fits-one_ack, Fits-Has, Fits-Sets, Fits-kept}
use ddbr.Cluster.First.Reached.{
  confirm-Has, confirm-addresses, All-AllAt, AllAt-All, AllAt, Has-IsServed, calls-Has, still,
}

-- A peer without a log that the leader has not asked yet
abbrev pub IsNew : RaftState → Peer → Type 0
IsNew rs m = IsFresh rs.current_term m × (lookup m.address rs.next_index ≡ none)

-- What the first write of a cluster comes to
pub record Reaches (w : Write) (n : Node) (ms : List Peer) (r : Handled × List Peer) : Type 0 where
  pub writes : Writes w n r.0
  pub leader_log : r.0.1.raft.logs ≡ added n.raft.current_term 0 (encode w) ∷ []
  pub same_term : r.0.1.raft.current_term ≡ n.raft.current_term
  pub took : All (Has n.raft.current_term (new_entry n.raft.current_term (pos 1) (encode w))) r.1
  pub addresses : map address_of r.1 ≡ map address_of ms
  pub served : All (IsServed r.0.1.raft) r.1

All-Fits :
    (v : UnmarshalEntry) (now : ℕ) (rs : RaftState) (cmd x : Str) (no_json : v cmd ≡ err x)
    (ms : List Peer)
    → All (IsNew rs) ms
    → let e = new_entry rs.current_term (pos 1) cmd in
      All (Fits v now rs.current_term cmd x no_json (record rs { logs = e ∷ [] })) ms
All-Fits v now rs cmd x no_json [] h = tt
All-Fits v now rs cmd x no_json (m ∷ ms) h =
    ((refl, refl, h.0.1, h.0.0), All-Fits v now rs cmd x no_json ms h.1)

not_empty :
    (peers : List Str) (ms : List Peer) → peers ≡ map address_of ms → 0 < length ms → peers ≢ []
not_empty peers [] p l = absurd (omega arith)
not_empty peers (m ∷ ms) p l = λ q. cc

abbrev emptied : Node → Node
emptied n = record n { raft = set_logs [] n.raft }

module _ (u : Unmarshal) (v : UnmarshalEntry) (now : ℕ) (w : Write) (n : Node) (ms : List Peer)
    (x : Str) (settled : IsSettled (emptied n)) (peers : n.raft.peers ≡ map address_of ms)
    (some_peer : 0 < length ms) (distinct : Distinct (map address_of ms))
    (new : All (IsNew n.raft) ms) (no_json : v (encode w) ≡ err x) (plain : IsPlain w) where
  emptied-Reaches : Reaches w (emptied n) ms (write_through u v now w (emptied n) ms)
  emptied-Reaches =
      let t = n.raft.current_term in
      let cmd = encode w in
      let n0 = emptied n in
      let e = new_entry t (pos 1) cmd in
      let start : RaftState = set_logs (e ∷ []) n.raft in
      let phase : Phase = record { raft = start; count = 1; sent = [] } in
      let steps = (call_peers v now e start ms).0 in
      let fits = All-Fits v now n.raft cmd x no_json ms new in
      let (count, _) =
        call_peers-acks v now e (Fits v now t cmd x no_json) (λ m. e ∷ [])
          (Fits-one_ack v now t cmd x no_json)
          (λ rs m f. (Fits-Has v now t cmd x no_json rs m f).0.logs)
          (Fits-kept v now t cmd x no_json) start ms distinct fits in
      let taken = all-Taken steps n.raft.peers ms peers count in
      let r = handle-Writes u steps w n0 settled taken plain (omega arith) in
      let (term, next, logs) =
        handle-after u steps w n0 settled.1.leads (not_empty n.raft.peers ms peers some_peer) taken
          tt (omega arith) in
      let raft = call_peers-raft v now e start ms phase refl in
      let (same, all_next) =
        call_peers-Sets v now e (pos 2) (Fits v now t cmd x no_json)
          (Fits-Sets v now t cmd x no_json) (still v now t cmd x no_json) start ms distinct fits in
      let rs = (handle u steps w n0).1.raft in
      let term' : rs.current_term ≡ t = term ∙ ap (λ (y : RaftState). y.current_term) raft ∙ same in
      let next' = next ∙ ap (λ (y : RaftState). y.next_index) raft in
      let (has, at) = calls-Has v now t cmd x no_json start ms distinct fits in
      let called = (call_peers v now e start ms).2 in
      let resp = (handle u steps w n0).0 in
      let took_it = confirm-Has v now e resp rs t called term' has in
      let addresses = confirm-addresses v now e resp rs called ∙ at in
      let peers' = confirm v now e resp rs called in
      let lookups : AllAt (λ a. lookup a rs.next_index ≡ some (pos 2)) (map address_of ms) =
        subst (λ d. AllAt (λ a. lookup a d ≡ some (pos 2)) (map address_of ms)) (sym next')
          (All-AllAt (λ a. lookup a (call_peers v now e start ms).1.next_index ≡ some (pos 2)) ms
            all_next) in
      let lookups' =
        AllAt-All (λ a. lookup a rs.next_index ≡ some (pos 2)) peers'
          (subst (AllAt (λ a. lookup a rs.next_index ≡ some (pos 2))) (sym addresses) lookups) in
      rw (write-calls u v now w n0 ms tt (omega arith)) (record {
        writes = r;
        leader_log = logs;
        same_term = term';
        took = took_it;
        addresses = addresses;
        served =
            Has-IsServed cmd rs peers' (logs ∙ ap (λ i. added i 0 cmd ∷ []) (sym term'))
              (subst (λ i. All (Has i (new_entry i (pos 1) cmd)) peers') (sym term') took_it)
              lookups';
      })

module _ (u : Unmarshal) (v : UnmarshalEntry) (now : ℕ) (w : Write) (n : Node) (ms : List Peer)
    (x : Str) (settled : IsSettled n) (empty : n.raft.logs ≡ [])
    (peers : n.raft.peers ≡ map address_of ms) (some_peer : 0 < length ms)
    (distinct : Distinct (map address_of ms)) (new : All (IsNew n.raft) ms)
    (no_json : v (encode w) ≡ err x) (plain : IsPlain w) where
  with_logs : List LogEntry → Node
  with_logs l = record n { raft = set_logs l n.raft }

  pub write-Reaches : Reaches w n ms (write_through u v now w n ms)
  unfolding with_logs
  write-Reaches =
      subst (λ l. Reaches w (with_logs l) ms (write_through u v now w (with_logs l) ms)) (sym empty)
        (emptied-Reaches u v now w n ms x (subst (λ l. IsSettled (with_logs l)) empty settled) peers
          some_peer distinct new no_json plain)
