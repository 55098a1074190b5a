-- ===== src/Sync/Merge.antt =====
-- What a follower's log is after a synchronisation (ddbr-server/infra/log_service.go, with SyncLogs
-- of ddbr-server/service/vote_service.go).
use ddbr.Common.{
  Bool, true, false, ◌≢◌, inl, inr, Bool-cases, ℕ, zero, suc, ◌+◌, ◌≤◌, ◌≡◌, refl, sym, ap, ◌∙◌,
  true, false, List, [], ◌∷◌, ◌++◌, some, arith, length, length-take, take, drop, map,
  take-append-drop, append-nil, if◌then◌else◌,
}
use ddbr.Common.Eq.{Str}
use ddbr.Common.Int.{ℤ, pos, leb_ℤ, ◌<ℤ◌}
use ddbr.Common.Result.{Result, ok, err}
use ddbr.Entry.{
  LogEntry, new_entry, IsConsecutive, IsConsecutive-take, last_index, last_index-length,
}
use ddbr.Kv.Command.{Unmarshal}
use ddbr.Kv.Machine.{StateMachine}
use ddbr.RaftState.{RaftState}
use ddbr.Recovery.{MarshalState, WriteFile, Host, persist_raft_state}
use ddbr.Sync.{
  has_entries, persist_synced, sync_host, check_host, from_gateway, configured_host, GatewayAnswer,
  LeaderClient, SyncError, entries_after, sync_logs, find_leader, with_leader, call_leader,
  merge_entries, sync_logs_with_leader,
}

-- A log without the flags of its entries.
abbrev pub strip : LogEntry → LogEntry
strip e = new_entry e.term e.index e.command

entries_after-all :
    (m n : ℕ) (logs : List LogEntry)
    → m ≤ n
    → IsConsecutive n logs
    → entries_after (pos m) logs ≡ map strip logs
unfolding entries_after
entries_after-all m n [] l c = refl
entries_after-all m n (e ∷ logs) l c =
    rw (c.0, entries_after-all m (suc n) logs (omega arith) c.1) (ground arith)

entries_after-drop :
    (j n : ℕ) (logs : List LogEntry)
    → IsConsecutive n logs
    → entries_after (pos (n + j)) logs ≡ map strip (drop j logs)
unfolding entries_after
entries_after-drop zero n logs c = entries_after-all (n + 0) n logs (omega arith) c
entries_after-drop (suc j) n [] c = refl
entries_after-drop (suc j) n (e ∷ logs) c =
    let shift : n + suc j ≡ suc n + j = omega arith in
    rw (c.0, ap (λ i. entries_after (pos i) logs) shift ∙ entries_after-drop j (suc n) logs c.1)
      (ground arith)

last_index-strip : (logs : List LogEntry) → last_index (map strip logs) ≡ last_index logs
unfolding last_index
last_index-strip [] = refl
last_index-strip (e ∷ []) = refl
last_index-strip (e ∷ f ∷ logs) = last_index-strip (f ∷ logs)

map-append : (xs ys : List LogEntry) → map strip (xs ++ ys) ≡ map strip xs ++ map strip ys
map-append [] ys = refl
map-append (x ∷ xs) ys = ap (λ l. strip x ∷ l) (map-append xs ys)

map-strip : (xs : List LogEntry) → map strip (map strip xs) ≡ map strip xs
map-strip [] = refl
map-strip (x ∷ xs) = ap (λ l. strip x ∷ l) (map-strip xs)

last_index-take :
    (k : ℕ) (logs : List LogEntry)
    → IsConsecutive 0 logs
    → k ≤ length logs
    → last_index (take k logs) ≡ pos k
last_index-take k logs c l =
    last_index-length (take k logs) (IsConsecutive-take k 0 logs c)
    ∙ ap pos (omega (arith, length-take k logs))

merge_entries-logs :
    (u : Unmarshal) (es : List LogEntry) (rs : RaftState) (sm : StateMachine)
    → (merge_entries u es (rs, sm)).0.logs ≡ rs.logs ++ es
unfolding merge_entries
merge_entries-logs u [] rs sm = sym (append-nil rs.logs)
merge_entries-logs u (e ∷ es) rs sm = refl

module _ (u : Unmarshal) (client : LeaderClient) (answer : GatewayAnswer) (peers : List Str)
    (master : Str) (leader_id id : ℤ) (host : Str) (rs leader : RaftState) (sm : StateMachine) where
  sync_logs_with_leader-found :
      rs.is_master ≡ false
      → find_leader leader_id answer peers master ≡ ok (id, host)
      → client host ≡ some (λ req. ok (sync_logs true req leader))
      → sync_logs_with_leader u client answer peers master leader_id (rs, sm) ≡ (
        ok (has_entries (entries_after (last_index rs.logs) leader.logs)),
        merge_entries u (entries_after (last_index rs.logs) leader.logs) (rs, sm),
      )
  unfolding sync_logs_with_leader sync_logs
  sync_logs_with_leader-found m f q =
      ap
        (λ b.
          if b
          then (ok false, (rs, sm))
          else with_leader u client (find_leader leader_id answer peers master) (rs, sm))
        m
      ∙ ap (λ r. with_leader u client r (rs, sm)) f
      ∙ ap (λ o. call_leader u host o (rs, sm)) q

merged-same :
    (k : ℕ) (logs whole : List LogEntry)
    → IsConsecutive 0 whole
    → k ≤ length whole
    → map strip logs ≡ map strip (take k whole)
    → map strip (logs ++ entries_after (last_index logs) whole) ≡ map strip whole
merged-same k logs whole c l p =
    let last : last_index logs ≡ pos (0 + k) =
      sym (last_index-strip logs)
      ∙ ap last_index p
      ∙ last_index-strip (take k whole)
      ∙ last_index-take k whole c l
      ∙ ap pos (omega arith) in
    rw
      (
        last,
        entries_after-drop k 0 whole c,
        map-append logs (map strip (drop k whole)),
        map-strip (drop k whole),
        p,
      )
      (sym (map-append (take k whole) (drop k whole)) ∙ ap (map strip) (take-append-drop k whole))

persist_raft_state-raft :
    (m : MarshalState) (w : WriteFile) (h : Host) → (persist_raft_state m w h).1.raft ≡ h.raft
unfolding persist_raft_state
persist_raft_state-raft m w h = ground arith

persist_synced-merged :
    (m : MarshalState) (w : WriteFile) (h : Host) (merged : Bool) (s : RaftState × StateMachine)
    → let (r, h') = persist_synced m w h (ok merged, s) in (r ≡ ok tt) × (h'.raft ≡ s.0)
persist_synced-merged m w h true (rs, sm) =
    (refl, persist_raft_state-raft m w (record h { raft = rs; kv = sm }))
persist_synced-merged m w h false (rs, sm) = (refl, refl)

-- A follower whose log is a prefix of the leader's, but for the flags of its entries, has after a
-- synchronisation the leader's whole log, but for the flags, whether its state file could be
-- written or not. The leader's log counts from 1, the follower does not lead, and the host that it
-- finds is the leader's.
pub sync_host-same :
    (u : Unmarshal) (ms : MarshalState) (w : WriteFile) (client : LeaderClient)
    (answer : GatewayAnswer) (peers : List Str) (master : Str) (leader_id id : ℤ) (host : Str)
    (h : Host) (leader : RaftState) (k : ℕ)
    → h.raft.is_master ≡ false
    → find_leader leader_id answer peers master ≡ ok (id, host)
    → client host ≡ some (λ req. ok (sync_logs true req leader))
    → IsConsecutive 0 leader.logs
    → k ≤ length leader.logs
    → map strip h.raft.logs ≡ map strip (take k leader.logs)
    → let (r, h') = sync_host u ms w client answer peers master leader_id h in
      (r ≡ ok tt) × (map strip h'.raft.logs ≡ map strip leader.logs)
unfolding sync_host
sync_host-same u ms w client answer peers master leader_id id host h leader k m f q c l p =
    let es = entries_after (last_index h.raft.logs) leader.logs in
    let s = merge_entries u es (h.raft, h.kv) in
    let found =
      sync_logs_with_leader-found u client answer peers master leader_id id host h.raft leader h.kv
        m f q in
    let done = persist_synced-merged ms w h (has_entries es) s in
    rw found (
      done.0,
      ap (λ (rs : RaftState). map strip rs.logs) done.1
          ∙ ap (map strip) (merge_entries-logs u es h.raft h.kv)
          ∙ merged-same k h.raft.logs leader.logs c l p,
    )

check_host-valid :
    (r : Result SyncError (ℤ × Str)) (id : ℤ) (host : Str)
    → check_host r ≡ ok (id, host)
    → (r ≡ ok (id, host)) × (host ≢ [])
check_host-valid (err x) id host h = absurd (ground arith)
check_host-valid (ok (i, [])) id host h = absurd (ground arith)
check_host-valid (ok (i, c ∷ s)) id host h = (h, ground (arith, h))

from_gateway-valid :
    (a : GatewayAnswer) (id : ℤ) (host : Str) → from_gateway a ≡ ok (id, host) → pos 0 <ℤ id
from_gateway-valid (err x) id host h = absurd (ground arith)
from_gateway-valid (ok (i, s)) id host h = ground (arith, h)

-- Whatever the gateway answers and the configuration says, the leader that a synchronisation turns
-- to has a positive id and a host that is not empty.
pub find_leader-valid :
    (leader_id id : ℤ) (host : Str) (answer : GatewayAnswer) (peers : List Str) (master : Str)
    → find_leader leader_id answer peers master ≡ ok (id, host)
    → (pos 0 <ℤ id) × (host ≢ [])
unfolding find_leader
find_leader-valid leader_id id host answer peers master h =
    let r =
      if leb_ℤ leader_id (pos 0)
      then from_gateway answer
      else ok (leader_id, configured_host peers master) in
    let (g, ne) = check_host-valid r id host h in
    elim (Bool-cases (leb_ℤ leader_id (pos 0))) [
      | inl t ↦ (from_gateway-valid answer id host (ground (arith, g, t)), ne)
      | inr f ↦ (ground (arith, g, f), ne)
    ]
