-- ===== src/Cluster/Lost.antt =====
-- What becomes of a write that peers with the leader's log take (ddbr-server/infra/replication.go
-- with raft_state_machine.go).
use ddbr.Common.{
  ℕ, zero, suc, ◌-◌, ◌<◌, ◌≡◌, refl, sym, subst, ap, ◌∙◌, true, false, List, [], ◌∷◌, ◌++◌, map,
  some, arith, length, take, drop, get_elem?, length-append, take-append_length, drop-append_length,
}
use ddbr.Common.Eq.{Str, str_Eq, ◌==◌, str_eq_iff}
use ddbr.Common.Int.{ℤ, pos, two_63, ◌≤ℤ◌, ◌+ℤ◌, pos-ℤ_one}
use ddbr.Common.Dict.{lookup, insert, lookup-insert}
use ddbr.Entry.{LogEntry, new_entry, last_term}
use ddbr.Rpc.{AppendEntriesResp}
use ddbr.Hosts.{Distinct}
use ddbr.Kv.Apply.{Write, encode, IsPlain, write_view}
use ddbr.Kv.Command.{Unmarshal}
use ddbr.Kv.Machine
use ddbr.RaftState.{RaftState}
use ddbr.Replication.{convert_log_entries_to_strings, ask, answer, peer_next, pre_commit_request}
use ddbr.Replication.Quorum.{acks}
use ddbr.Replication.Request.{pre_commit_request-segment}
use ddbr.Service.{Node, done}
use ddbr.Service.Writes.{IsSettled, handle-Writes}
use ddbr.Election.Append.{UnmarshalEntry, append_entries, matches_prev, reply}
use ddbr.Election.Append.Replies.{append_entries-drops}
use ddbr.Cluster.{Peer, call_peer, call_peers, write_through}
use ddbr.Cluster.Calls.{
  address_of, logs_of, All, taken_by, call_peer-success, call_peers-acks, all-Taken, confirm-logs,
  write-calls,
}

last_at :
    (x : LogEntry) (logs : List LogEntry)
    → (y : LogEntry) × (get_elem? (x ∷ logs) (length logs) ≡ some y)
      × (last_term (x ∷ logs) ≡ y.term)
unfolding last_term
last_at x [] = (x, refl, refl)
last_at x (z ∷ logs) = last_at z logs

-- A log has its own last entry.
matches_prev-last :
    (logs : List LogEntry)
    → 0 < length logs
    → length logs < two_63
    → matches_prev (pos (length logs)) (last_term logs) logs ≡ true
unfolding matches_prev
matches_prev-last [] h b = absurd (omega arith)
matches_prev-last (x ∷ logs) h b =
    let (y, at, term) = last_at x logs in rw (pos-ℤ_one (length logs) b, at, term) (ground arith)

-- A peer that has taken the leader's log of the term `t`: as many entries, the last one of the same
-- term
pub record InSync (t : ℤ) (logs : List LogEntry) (m : Peer) : Type 0 where
  pub no_later : m.machine.current_term ≤ℤ t
  pub as_long : length m.machine.logs ≡ length logs
  pub same_term : last_term m.machine.logs ≡ last_term logs

still_next :
    (x : ℤ) {y : ℤ} (rs : RaftState) (m m' : Peer)
    → lookup m'.address rs.next_index ≡ some y
    → (m'.address == m.address) ≡ false
    → lookup m'.address (insert m.address x rs.next_index) ≡ some y
still_next x rs m m' next other = ground (
  arith,
  lookup-insert m.address m'.address x rs.next_index,
  str_eq_iff m.address m'.address,
  str_eq_iff m'.address m.address,
)

module _ (v : UnmarshalEntry) (now : ℕ) (t : ℤ) (logs : List LogEntry) (cmd : Str)
    (some_logged : 0 < length logs) (b : suc (suc (length logs)) < two_63) where
  abbrev entry : LogEntry
  entry = new_entry t (pos (suc (length logs))) cmd

  -- The leader has the new entry in its log and takes the peer to have all before.
  abbrev Fits : RaftState → Peer → Type 0
  Fits rs m =
      (rs.current_term ≡ t)
      × (rs.logs ≡ logs ++ entry ∷ [])
      × (lookup m.address rs.next_index ≡ some (pos (suc (length logs))))
      × InSync t logs m

  Fits-peer_next :
      (rs : RaftState) (m : Peer)
      → Fits rs m
      → peer_next rs m.address ≡ (rs, pos (suc (length logs)))
  unfolding peer_next
  Fits-peer_next rs m (term, l, next, sync) = rw (next, peer_next) refl

  -- The request carries the new entry only, and the peer answers it with success, but does not take
  -- it.
  Fits-dropped :
      (rs : RaftState) (m : Peer)
      → Fits rs m
      → let r =
          append_entries v now (pre_commit_request rs (pos (suc (length logs))) entry) m.machine in
        (r.0 ≡ reply true m.machine.current_term) × (r.1.logs ≡ m.machine.logs)
  unfolding pre_commit_request
  Fits-dropped rs m (term, l, next, sync) =
      let k = length logs in
      let req = pre_commit_request rs (pos (suc k)) entry in
      let len : length rs.logs ≡ suc k =
        ap length l ∙ length-append logs (entry ∷ []) ∙ omega arith in
      let (index, prev, entries) =
        pre_commit_request-segment rs entry k (suc k) refl (omega arith) (omega (arith, len))
          (omega (arith, len, b)) in
      let before : take k rs.logs ≡ logs =
        ap (take k) l ∙ take-append_length k logs (entry ∷ []) refl in
      let after : take (suc k - k) (drop k rs.logs) ≡ entry ∷ [] =
        let one : suc k - k ≡ suc zero = omega arith in
        rw (l, drop-append_length k logs (entry ∷ []) refl, one) refl in
      let at_end : req.prev_log_index ≡ pos (length m.machine.logs) =
        index ∙ ap pos (sym sync.as_long) in
      let matches : matches_prev req.prev_log_index req.prev_log_term m.machine.logs ≡ true =
        ap (λ i. matches_prev i req.prev_log_term m.machine.logs) at_end
        ∙ ap (λ x. matches_prev (pos (length m.machine.logs)) x m.machine.logs)
            (prev ∙ ap last_term before ∙ sym sync.same_term)
        ∙ matches_prev-last m.machine.logs (omega (arith, sync.as_long))
            (omega (arith, sync.as_long, b)) in
      append_entries-drops v now req cmd [] m.machine
        (subst (λ x. m.machine.current_term ≤ℤ x) (sym term) sync.no_later) at_end matches
        (entries ∙ ap convert_log_entries_to_strings after) (omega (arith, sync.as_long))
        (omega (arith, sync.as_long, b))

  Fits-call :
      (rs : RaftState) (m : Peer)
      → Fits rs m
      → let answer_of : AppendEntriesResp = record {
        term = m.machine.current_term;
        success = true;
      } in
        let machine =
          (append_entries v now
            (pre_commit_request rs (pos (suc (length logs))) entry)
            m.machine).1 in
        call_peer v now entry rs m ≡ (
          ask m.address ∷ answer m.address answer_of ∷ [],
          taken_by m.address entry rs,
          record m { machine = machine },
        )
  Fits-call rs m f =
      call_peer-success v now entry rs rs (pos (suc (length logs))) m.machine.current_term m
        (Fits-peer_next rs m f) (Fits-dropped rs m f).0

  Fits-one_ack : (rs : RaftState) (m : Peer) → Fits rs m → acks (call_peer v now entry rs m).0 ≡ 1
  Fits-one_ack rs m f = rw (Fits-call rs m f) refl

  Fits-leaves :
      (rs : RaftState) (m : Peer) → Fits rs m → logs_of (call_peer v now entry rs m).2 ≡ logs_of m
  Fits-leaves rs m f = rw (Fits-call rs m f) (Fits-dropped rs m f).1

  Fits-kept :
      (rs : RaftState) (m m' : Peer)
      → Fits rs m
      → Fits rs m'
      → (m'.address == m.address) ≡ false
      → Fits (call_peer v now entry rs m).1 m'
  Fits-kept rs m m' f (term, l, next, sync) other =
      rw (Fits-call rs m f)
        (term, l, still_next (pos (suc (length logs)) +ℤ pos 1) rs m m' next other, sync)

-- The leader takes the peer to have its whole log, and the peer has.
abbrev pub IsServed : RaftState → Peer → Type 0
IsServed rs m =
    (lookup m.address rs.next_index ≡ some (pos (suc (length rs.logs))))
    × InSync rs.current_term rs.logs m

All-Fits :
    (v : UnmarshalEntry) (now : ℕ) (rs : RaftState) (cmd : Str) (some_logged : 0 < length rs.logs)
    (b : suc (suc (length rs.logs)) < two_63) (ms : List Peer)
    → All (IsServed rs) ms
    → let e = entry v now rs.current_term rs.logs cmd some_logged b in
      All
        (Fits v now rs.current_term rs.logs cmd some_logged b
          (record rs { logs = rs.logs ++ e ∷ [] }))
        ms
All-Fits v now rs cmd some_logged b [] h = tt
All-Fits v now rs cmd some_logged b (m ∷ ms) h =
    ((refl, refl, h.0.0, h.0.1), All-Fits v now rs cmd some_logged b ms h.1)

-- Take a leader whose log counts from 1, is not empty, is committed and is applied but for at most
-- its last entry, and whose peers, with addresses that differ, all have that log: as many entries,
-- the last one of the same term, no later term, and the leader's next index for them is the one
-- after its log. A Set or Delete with a key and value that hold no colon, whose calls reach all
-- peers one after the other, is answered with success, is in the leader's log and is done to the
-- leader's store; yet the log of every peer stays as it was. The log is shorter than 2^63 - 2
-- entries.
pub write-lost :
    (u : Unmarshal) (v : UnmarshalEntry) (now : ℕ) (w : Write) (n : Node) (ms : List Peer)
    → IsSettled n
    → 0 < length n.raft.logs
    → suc (suc (length n.raft.logs)) < two_63
    → n.raft.peers ≡ map address_of ms
    → Distinct (map address_of ms)
    → All (IsServed n.raft) ms
    → IsPlain w
    → let ((resp, n'), ms') = write_through u v now w n ms in
      (resp ≡ some (record { success = true; message = done }))
      × (length n'.raft.logs ≡ suc (length n.raft.logs))
      × ((j : Str) → Machine.get n'.kv j ≡ write_view w (Machine.get n.kv) j)
      × (map logs_of ms' ≡ map logs_of ms)
write-lost u v now w n ms (a, h) some_logged b peers distinct served plain =
    let rs = n.raft in
    let cmd = encode w in
    let e = entry v now rs.current_term rs.logs cmd some_logged b in
    let start : RaftState = record rs { logs = rs.logs ++ e ∷ [] } in
    let steps = (call_peers v now e start ms).0 in
    let (count, same) =
      call_peers-acks v now e (Fits v now rs.current_term rs.logs cmd some_logged b) logs_of
        (Fits-one_ack v now rs.current_term rs.logs cmd some_logged b)
        (Fits-leaves v now rs.current_term rs.logs cmd some_logged b)
        (Fits-kept v now rs.current_term rs.logs cmd some_logged b) start ms distinct
        (All-Fits v now rs cmd some_logged b ms served) in
    let r = handle-Writes u steps w n (a, h) (all-Taken steps rs.peers ms peers count) plain b in
    rw (write-calls u v now w n ms h.counts (omega (arith, b)))
      (r.succeeds, r.logs_one, r.stores, confirm-logs v now e _ _ _ ∙ same)
