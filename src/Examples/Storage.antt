-- ===== src/Examples/Storage.antt =====
-- Examples for recovery and log synchronisation (ddbr-server/infra/init_manager.go,
-- log_service.go).
use ddbr.Common.{◌≡◌, refl, true, false, [], ◌∷◌, none, some, map, arith}
use ddbr.Common.Eq.{Str, bytes, str_Eq}
use ddbr.Common.Int.{pos}
use ddbr.Common.Result.{ok, err}
use ddbr.Common.Text.{occurrences}
use ddbr.Kv.Machine
use ddbr.Kv.Apply.{put, write_all}
use ddbr.RaftState
use ddbr.RaftState.{RaftState}
use ddbr.Recovery.{
  Host, PersistentState, MarshalState, UnmarshalState, written, persistent_state,
  persist_raft_state, recover_from_storage,
}
use ddbr.Recovery.Replay.{recover_from_storage-leader, recover-persist}
use ddbr.Sync.{LeaderClient, find_leader, sync_logs, sync_host}
use ddbr.Sync.Merge.{strip, sync_host-same}
use ddbr.Examples.Kv.{no_json, set_a}
use ddbr.Examples.Logs.{first, second}

abbrev saved : PersistentState
saved = record { current_term = pos 1; voted_for = pos 7; logs = set_a ∷ [] }

-- A file format that knows one state only.
abbrev to_text : MarshalState
to_text s = bytes "state"

abbrev of_text : UnmarshalState
of_text t = ok saved

abbrev stopped : Host
stopped = record {
  raft = record RaftState.new { current_term = pos 1; voted_for = pos 7; logs = set_a ∷ [] };
  kv = Machine.new;
  is_master = false;
  is_init = true;
  file = none;
}

abbrev starting : Host
starting = record stopped { raft = RaftState.new; file = some (bytes "state") }

recover-persist_example :
    let file = (persist_raft_state to_text written stopped).1.file in
    let (r, h) = recover_from_storage no_json of_text true (record starting { file = file }) in
    (r ≡ ok tt)
    × (persistent_state h.raft ≡ persistent_state stopped.raft)
    × (h.raft.commit_index ≡ pos 0)
    × (h.raft.last_applied ≡ pos 0)
    × (h.kv ≡ Machine.new)
recover-persist_example = recover-persist no_json to_text of_text stopped starting refl refl refl

recover_from_storage-leader_example :
    let (r, h) = recover_from_storage no_json of_text true (record starting { is_master = true }) in
    (r ≡ ok tt)
    × ((j : Str)
        → Machine.get h.kv j
          ≡ write_all (put (bytes "a") (bytes "1") ∷ []) (Machine.get Machine.new) j)
    × (persistent_state h.raft ≡ saved)
    × (h.raft.commit_index ≡ pos 1)
    × (h.raft.last_applied ≡ pos 1)
unfolding occurrences
recover_from_storage-leader_example =
    recover_from_storage-leader no_json of_text (record starting { is_master = true })
      (bytes "state") saved (put (bytes "a") (bytes "1") ∷ []) refl refl refl (λ e. cc) (refl, tt)
      (refl, (refl, refl), tt) refl refl

abbrev leader_log : RaftState
leader_log = record RaftState.new { logs = first ∷ second ∷ [] }

abbrev client : LeaderClient
client host = some (λ req. ok (sync_logs true req leader_log))

abbrev follower_log : RaftState
follower_log = record RaftState.new { logs = first ∷ [] }

abbrev follower_host : Host
follower_host = record stopped { raft = follower_log }

sync_host-same_example :
    let (r, h) =
      sync_host no_json to_text written client (err []) (bytes "b" ∷ []) [] (pos 1) follower_host in
    (r ≡ ok tt) × (map strip h.raft.logs ≡ map strip leader_log.logs)
unfolding find_leader
sync_host-same_example =
    sync_host-same no_json to_text written client (err []) (bytes "b" ∷ []) [] (pos 1) (pos 1)
      (bytes "b") follower_host leader_log 1 refl refl refl (refl, (refl, tt)) (omega arith) refl
