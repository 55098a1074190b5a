-- ===== src/Examples/Cluster.antt =====
-- Examples for a leader and its peers (ddbr-server/infra/replication.go, ddbr-server/service/
-- append_entries_service.go).
use ddbr.Common.{◌≡◌, refl, inl, true, List, [], ◌∷◌, map, Option, none, some, arith, length}
use ddbr.Common.Eq.{Str, bytes, str_Eq}
use ddbr.Common.Int.{pos}
use ddbr.Common.Text.{occurrences}
use ddbr.Common.Dict.{lookup}
use ddbr.Entry.{new_entry}
use ddbr.Kv.Apply.{Write, put, drop_key, encode, write_view}
use ddbr.Kv.Machine
use ddbr.Service.{Node, WriteResp, done}
use ddbr.Service.Settled.{Settled}
use ddbr.Cluster.{Peer, write_through}
use ddbr.Cluster.Calls.{logs_of, All}
use ddbr.Cluster.Lost.{InSync, write-lost}
use ddbr.Cluster.First.{IsFresh}
use ddbr.Election.Append.{UnmarshalEntry}
use ddbr.Common.Result.{err}
use ddbr.Cluster.Fresh.Twice.{write-reaches, two_writes-one_kept}
use ddbr.Examples.Election.{node}
use ddbr.Examples.Kv.{no_json}
use ddbr.Examples.Logs.{first}
use ddbr.Examples.Service.{started, started-Settled}

abbrev plain_text : UnmarshalEntry
plain_text s = err (bytes "no JSON")

abbrev new_peer : Str → Peer
new_peer host = record { address = host; machine = record node { logs = []; current_term = pos 0 } }

abbrev new_peers : List Peer
new_peers = new_peer (bytes "b") ∷ new_peer (bytes "c") ∷ []

new_peer-IsFresh : (host : Str) → IsFresh (pos 0) (new_peer host)
new_peer-IsFresh host = record { no_later = omega arith; no_log = refl }

abbrev set_1 : Write
set_1 = put (bytes "a") (bytes "1")

write-reaches_example :
    let ((resp, n'), ms') = write_through no_json plain_text 5 set_1 started new_peers in
    let e = new_entry (pos 0) (pos 1) (encode set_1) in
    (resp ≡ some (record { success = true; message = done }))
    × ((j : Str) → Machine.get n'.kv j ≡ write_view set_1 (Machine.get started.kv) j)
    × (n'.raft.logs ≡ record e { pre_committed = true } ∷ [])
    × All (λ m. m.machine.logs ≡ e ∷ []) ms'
unfolding occurrences lookup ddbr.Hosts.contains ddbr.Common.Eq.str_eq
write-reaches_example =
    write-reaches no_json plain_text 5 set_1 started new_peers (bytes "no JSON")
      (0, started-Settled) refl refl (omega arith) (refl, (refl, tt))
      ((new_peer-IsFresh (bytes "b"), refl), ((new_peer-IsFresh (bytes "c"), refl), tt)) refl
      (refl, refl)

two_writes-one_kept_example :
    let ((first, n'), ms') = write_through no_json plain_text 5 set_1 started new_peers in
    let ((second, n''), ms'') = write_through no_json plain_text 5 (drop_key (bytes "b")) n' ms' in
    let success : Option WriteResp = some (record { success = true; message = done }) in
    (first ≡ success)
    × (second ≡ success)
    × ((j : Str) → Machine.get n''.kv j ≡ write_view (drop_key (bytes "b")) (Machine.get n'.kv) j)
    × ((j : Str) → Machine.get n'.kv j ≡ write_view set_1 (Machine.get started.kv) j)
    × All (λ m. m.machine.logs ≡ new_entry (pos 0) (pos 1) (encode set_1) ∷ []) ms''
unfolding occurrences lookup ddbr.Hosts.contains ddbr.Common.Eq.str_eq
two_writes-one_kept_example =
    two_writes-one_kept no_json plain_text 5 set_1 (drop_key (bytes "b")) started new_peers
      (bytes "no JSON") (0, started-Settled) refl refl (omega arith) (refl, (refl, tt))
      ((new_peer-IsFresh (bytes "b"), refl), ((new_peer-IsFresh (bytes "c"), refl), tt)) refl
      (refl, refl) refl

-- A leader with one entry, which both peers have
abbrev served : Node
served = record started {
  raft = record started.raft {
    current_term = pos 1;
    logs = first ∷ [];
    commit_index = pos 1;
    next_index = (bytes "b", pos 2) ∷ (bytes "c", pos 2) ∷ [];
  };
}

served-Settled : Settled served 0
served-Settled = record {
  leads = refl;
  counts = (refl, tt);
  commits = refl;
  applied = refl;
  kv_applied = refl;
  applied_le = omega arith;
  applied_ge = omega arith;
}

abbrev synced : Str → Peer
synced host = record {
  address = host;
  machine = record node { logs = first ∷ []; current_term = pos 1 };
}

is_synced : (host : Str) → InSync (pos 1) (first ∷ []) (synced host)
is_synced host = record { no_later = omega arith; as_long = refl; same_term = refl }

abbrev both : List Peer
both = synced (bytes "b") ∷ synced (bytes "c") ∷ []

write-lost_example :
    let ((resp, n'), ms') = write_through no_json plain_text 5 set_1 served both in
    (resp ≡ some (record { success = true; message = done }))
    × (length n'.raft.logs ≡ 2)
    × ((j : Str) → Machine.get n'.kv j ≡ write_view set_1 (Machine.get served.kv) j)
    × (map logs_of ms' ≡ map logs_of both)
unfolding occurrences lookup ddbr.Hosts.contains ddbr.Common.Eq.str_eq
write-lost_example =
    write-lost no_json plain_text 5 set_1 served both (0, served-Settled) (omega arith)
      (omega arith) refl (refl, (refl, tt))
      ((refl, is_synced (bytes "b")), ((refl, is_synced (bytes "c")), tt)) (refl, refl)
