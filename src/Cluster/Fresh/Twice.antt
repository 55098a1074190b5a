-- ===== src/Cluster/Fresh/Twice.antt =====
-- The first two writes of a new cluster (ddbr-server/service/kv_impl.go with infra/replication.go
-- and raft_state_machine.go).
use ddbr.Common.{
  ℕ, ◌<◌, ◌≡◌, sym, subst, ap, ◌∙◌, true, List, [], ◌∷◌, map, Option, some, arith, length,
}
use ddbr.Common.Eq.{Str, str_Eq}
use ddbr.Common.Int.{pos}
use ddbr.Common.Result.{err}
use ddbr.Entry.{LogEntry, new_entry}
use ddbr.Hosts.{Distinct}
use ddbr.Kv.Apply.{Write, encode, IsPlain, write_view}
use ddbr.Kv.Command.{Unmarshal}
use ddbr.Kv.Machine
use ddbr.RaftState.{RaftState}
use ddbr.Service.{Node, WriteResp, done}
use ddbr.Service.Writes.{IsSettled}
use ddbr.Election.Append.{UnmarshalEntry}
use ddbr.Cluster.{Peer, write_through}
use ddbr.Cluster.Calls.{address_of, logs_of, All}
use ddbr.Cluster.Lost.{write-lost}
use ddbr.Cluster.First.{Has}
use ddbr.Cluster.Fresh.{IsNew, write-Reaches}

-- Each list of a list of logs is this log.
abbrev AllSame : List LogEntry → List (List LogEntry) → Type 0
AllSame l [] = Unit {0}
AllSame l (x ∷ xs) = (x ≡ l) × AllSame l xs

Has-AllSame :
    (rs : RaftState) (e : LogEntry) (ms : List Peer)
    → All (Has rs.current_term e) ms
    → AllSame (e ∷ []) (map logs_of ms)
Has-AllSame rs e [] h = tt
Has-AllSame rs e (m ∷ ms) h = (h.0.logs, Has-AllSame rs e ms h.1)

AllSame-All :
    (l : List LogEntry) (ms : List Peer) → AllSame l (map logs_of ms) → All (λ m. logs_of m ≡ l) ms
AllSame-All l [] h = tt
AllSame-All l (m ∷ ms) h = (h.0, AllSame-All l ms h.1)

-- A new cluster: the leader has no log and has applied nothing, it has peers, their addresses
-- differ, they have no logs and no later terms, and the leader has no next index for them. A Set or
-- Delete with a key and value that hold no colon, whose command is no JSON, and whose calls reach
-- all peers one after the other, is answered with success and done to the leader's store; the
-- leader's log is its entry, marked as pre-committed, and every peer's log is this entry, not
-- marked.
pub write-reaches :
    (u : Unmarshal) (v : UnmarshalEntry) (now : ℕ) (w : Write) (n : Node) (ms : List Peer) (x : Str)
    → IsSettled n
    → n.raft.logs ≡ []
    → n.raft.peers ≡ map address_of ms
    → 0 < length ms
    → Distinct (map address_of ms)
    → All (IsNew n.raft) ms
    → v (encode w) ≡ err x
    → IsPlain w
    → let ((resp, n'), ms') = write_through u v now w n ms in
      let e = new_entry n.raft.current_term (pos 1) (encode w) in
      (resp ≡ some (record { success = true; message = done }))
      × ((j : Str) → Machine.get n'.kv j ≡ write_view w (Machine.get n.kv) j)
      × (n'.raft.logs ≡ record e { pre_committed = true } ∷ [])
      × All (λ m. m.machine.logs ≡ e ∷ []) ms'
write-reaches u v now w n ms x h empty peers some_peer distinct new no_json plain =
    let e = new_entry n.raft.current_term (pos 1) (encode w) in
    let r = write-Reaches u v now w n ms x h empty peers some_peer distinct new no_json plain in
    (
      r.writes.succeeds,
      r.writes.stores,
      r.leader_log,
      AllSame-All (e ∷ []) (write_through u v now w n ms).1
          (Has-AllSame n.raft e (write_through u v now w n ms).1 r.took),
    )

-- A new cluster: the leader has no log and has applied nothing, it has peers, their addresses
-- differ, they have no logs and no later terms, and the leader has no next index for them. Of two
-- Sets or Deletes one after the other, with keys and values that hold no colon, the first command
-- no JSON, whose calls reach all peers one after the other, both are answered with success, and the
-- leader's store has the first write and then the second done to it; but the log of every peer is
-- the entry of the first, so the second is on the leader only.
pub two_writes-one_kept :
    (u : Unmarshal) (v : UnmarshalEntry) (now : ℕ) (w w' : Write) (n : Node) (ms : List Peer)
    (x : Str)
    → IsSettled n
    → n.raft.logs ≡ []
    → n.raft.peers ≡ map address_of ms
    → 0 < length ms
    → Distinct (map address_of ms)
    → All (IsNew n.raft) ms
    → v (encode w) ≡ err x
    → IsPlain w
    → IsPlain w'
    → let ((first, n'), ms') = write_through u v now w n ms in
      let ((second, n''), ms'') = write_through u v now w' n' ms' in
      let success : Option WriteResp = some (record { success = true; message = done }) in
      (first ≡ success)
      × (second ≡ success)
      × ((j : Str) → Machine.get n''.kv j ≡ write_view w' (Machine.get n'.kv) j)
      × ((j : Str) → Machine.get n'.kv j ≡ write_view w (Machine.get n.kv) j)
      × All (λ m. m.machine.logs ≡ new_entry n.raft.current_term (pos 1) (encode w) ∷ []) ms''
two_writes-one_kept u v now w w' n ms x h empty peers some_peer distinct new no_json plain plain' =
    let e = new_entry n.raft.current_term (pos 1) (encode w) in
    let r = write-Reaches u v now w n ms x h empty peers some_peer distinct new no_json plain in
    let ((first, n'), ms') = write_through u v now w n ms in
    let one : length n'.raft.logs ≡ 1 = ap length r.leader_log in
    let (second, _, stores, kept) =
      write-lost u v now w' n' ms' r.writes.stays_settled (omega (arith, one)) (omega (arith, one))
        (r.writes.same_peers ∙ peers ∙ sym r.addresses) (subst Distinct (sym r.addresses) distinct)
        r.served plain' in
    let ms'' = (write_through u v now w' n' ms').1 in
    (
      r.writes.succeeds,
      second,
      stores,
      r.writes.stores,
      AllSame-All (e ∷ []) ms''
          (subst (AllSame (e ∷ [])) (sym kept) (Has-AllSame n.raft e ms' r.took)),
    )
