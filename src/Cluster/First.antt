-- ===== src/Cluster/First.antt =====
-- The first write of a cluster (ddbr-server/infra/replication.go with raft_state_machine.go).
pub mod Reached
use ddbr.Common.{
  ℕ, zero, suc, ◌+◌, ◌-◌, ◌≤◌, ◌<◌, ◌≡◌, refl, sym, subst, ap, ◌∙◌, Bool, true, false, List, [],
  ◌∷◌, ◌++◌, map, Option, none, some, arith, length, take, if-true,
}
use ddbr.Common.Eq.{Str, str_Eq, ◌==◌, str_eq_iff}
use ddbr.Common.Int.{ℤ, pos, two_63, ltb_ℤ, ◌≤ℤ◌, ◌+ℤ◌, pos-+ℤ_one}
use ddbr.Common.Dict.{lookup, insert, lookup-insert}
use ddbr.Common.Result.{err}
use ddbr.Entry.{LogEntry, new_entry}
use ddbr.RaftState.{RaftState}
use ddbr.Replication.{ask, answer, convert_log_entries_to_strings, peer_next, pre_commit_request}
use ddbr.Replication.Quorum.{acks}
use ddbr.Replication.Request.{pre_commit_request-segment}
use ddbr.Rpc.{AppendEntriesReq, AppendEntriesResp}
use ddbr.Election.{RaftStateMachine, heartbeat, send}
use ddbr.Election.Append.{
  UnmarshalEntry, new_entries, append_entries, append_logs, step_down, advance_commit, finish_merge,
  merge, reply,
}
use ddbr.Election.Append.Merge.{raft_merge}
use ddbr.Election.Append.Replies.{append_entries-start}
use ddbr.Cluster.{Peer, call_peer}
use ddbr.Cluster.Calls.{logs_of, taken_by, call_peer-success}
use ddbr.Cluster.Phase.{Sets}

-- A peer that has no log and no later term than the leader
pub record IsFresh (t : ℤ) (m : Peer) : Type 0 where
  pub no_later : m.machine.current_term ≤ℤ t
  pub no_log : m.machine.logs ≡ []

-- A peer that has this one entry
pub record Has (t : ℤ) (entry : LogEntry) (m : Peer) : Type 0 where
  pub no_later : m.machine.current_term ≤ℤ t
  pub logs : m.machine.logs ≡ entry ∷ []

step_down-no_later :
    (t : ℤ) (sm : RaftStateMachine) → sm.current_term ≤ℤ t → (step_down t sm).current_term ≤ℤ t
unfolding step_down
step_down-no_later t sm l = ground arith

finish_merge-term :
    (t c : ℤ) (sm : RaftStateMachine) (o : Option (List LogEntry))
    → (finish_merge t c sm o).1.current_term ≡ sm.current_term
unfolding advance_commit
finish_merge-term t c sm none = refl
finish_merge-term t c sm (some logs) = ground arith

append_logs-term :
    (v : UnmarshalEntry) (t : ℤ) (req : AppendEntriesReq) (es : List Str) (sm : RaftStateMachine)
    → (append_logs v t req es sm).1.current_term ≡ sm.current_term
unfolding append_logs
append_logs-term v t req [] sm = refl
append_logs-term v t req (s ∷ ss) sm = ground (
  arith,
  finish_merge-term t req.leader_commit sm
      (merge sm.logs (new_entries v req.term (req.prev_log_index +ℤ pos 1) (s ∷ ss))),
)

-- A request of the leader's term does not take a peer past it.
pub append_entries-no_later :
    (v : UnmarshalEntry) (now : ℕ) (req : AppendEntriesReq) (sm : RaftStateMachine)
    → sm.current_term ≤ℤ req.term
    → (append_entries v now req sm).1.current_term ≤ℤ req.term
unfolding append_entries
append_entries-no_later v now req sm l =
    let sm' = send heartbeat (record sm { last_heartbeat = now }) in
    let current : ltb_ℤ req.term sm.current_term ≡ false = ground (arith, l) in
    rw current (
      subst (λ i. i ≤ℤ req.term)
        (sym (append_logs-term v sm.current_term req req.entries (step_down req.term sm')))
        (step_down-no_later req.term sm' l))

module _ (v : UnmarshalEntry) (now : ℕ) (t : ℤ) (cmd x : Str) (no_json : v cmd ≡ err x) where
  abbrev pub entry : LogEntry
  entry = new_entry t (pos 1) cmd

  -- The leader has the entry alone in its log and no next index for the peer.
  abbrev pub Fits : RaftState → Peer → Type 0
  Fits rs m =
      (rs.current_term ≡ t)
      × (rs.logs ≡ entry ∷ [])
      × (lookup m.address rs.next_index ≡ none)
      × IsFresh t m

  abbrev asked : RaftState → Str → RaftState
  asked rs peer = record rs {
    next_index = insert peer (pos 1) rs.next_index;
    match_index = insert peer (pos 0) rs.match_index;
  }

  Fits-peer_next :
      (rs : RaftState) (m : Peer) → Fits rs m → peer_next rs m.address ≡ (asked rs m.address, pos 1)
  unfolding peer_next insert
  Fits-peer_next rs m (term, l, next, fresh) = rw (next, peer_next, l) refl

  Fits-appended :
      (rs : RaftState) (m : Peer)
      → Fits rs m
      → let r =
          append_entries v now (pre_commit_request (asked rs m.address) (pos 1) entry) m.machine in
        (r.0 ≡ reply true m.machine.current_term)
        × (r.1.logs ≡ entry ∷ [])
        × (r.1.current_term ≤ℤ t)
  unfolding pre_commit_request raft_merge new_entries
  Fits-appended rs m (term, l, next, fresh) =
      let rs' = asked rs m.address in
      let req = pre_commit_request rs' (pos 1) entry in
      let (index, prev, entries) =
        pre_commit_request-segment rs' entry 0 1 refl (omega arith) (omega (arith, ap length l))
          (omega (arith, ap length l)) in
      let no_later : m.machine.current_term ≤ℤ req.term =
        subst (λ i. m.machine.current_term ≤ℤ i) (sym term) fresh.no_later in
      let (accepted, logs) =
        append_entries-start v now req cmd [] m.machine no_later index
          (entries ∙ ap (λ k. convert_log_entries_to_strings (take 1 k)) l) (omega arith) in
      (
        accepted,
        logs ∙ rw (fresh.no_log, no_json, term) refl,
        subst (λ i. (append_entries v now req m.machine).1.current_term ≤ℤ i) term
            (append_entries-no_later v now req m.machine no_later),
      )

  Fits-call :
      (rs : RaftState) (m : Peer)
      → Fits rs m
      → let resp : AppendEntriesResp = record { term = m.machine.current_term; success = true } in
        let rs' = asked rs m.address in
        let machine = (append_entries v now (pre_commit_request rs' (pos 1) entry) m.machine).1 in
        call_peer v now entry rs m ≡ (
          ask m.address ∷ answer m.address resp ∷ [],
          taken_by m.address entry rs',
          record m { machine = machine },
        )
  Fits-call rs m f =
      call_peer-success v now entry rs (asked rs m.address) (pos 1) m.machine.current_term m
        (Fits-peer_next rs m f) (Fits-appended rs m f).0

  pub Fits-one_ack :
      (rs : RaftState) (m : Peer) → Fits rs m → acks (call_peer v now entry rs m).0 ≡ 1
  Fits-one_ack rs m f = rw (Fits-call rs m f) refl

  -- The peer has the entry after the call.
  pub Fits-Has :
      (rs : RaftState) (m : Peer)
      → Fits rs m
      → Has t entry (call_peer v now entry rs m).2
        × ((call_peer v now entry rs m).2.address ≡ m.address)
  Fits-Has rs m f =
      rw (Fits-call rs m f)
        (record { no_later = (Fits-appended rs m f).2; logs = (Fits-appended rs m f).1 }, refl)

  lookup-taken_by :
      (rs : RaftState) (m : Peer) (a : Str)
      → (a == m.address) ≡ false
      → lookup a (taken_by m.address entry (asked rs m.address)).next_index ≡ lookup a rs.next_index
  lookup-taken_by rs m a other = ground (
    arith,
    lookup-insert m.address a (pos 1 +ℤ pos 1) (asked rs m.address).next_index,
    lookup-insert m.address a (pos 1) rs.next_index,
    str_eq_iff m.address a,
    str_eq_iff a m.address,
  )

  pub Fits-Sets :
      (rs : RaftState) (m : Peer)
      → Fits rs m
      → Sets (pos 2) rs (call_peer v now entry rs m).1 m.address
  Fits-Sets rs m f =
      let rs' = asked rs m.address in
      rw (Fits-call rs m f) (record {
        same_term = refl;
        set =
            lookup-insert m.address m.address (pos 1 +ℤ pos 1) rs'.next_index
            ∙ if-true (m.address == m.address) (some (pos 1 +ℤ pos 1)) _
                ((str_eq_iff m.address m.address).1 refl)
            ∙ ap some (pos-+ℤ_one 1 (omega arith));
        kept = lookup-taken_by rs m;
      })

  pub Fits-kept :
      (rs : RaftState) (m m' : Peer)
      → Fits rs m
      → Fits rs m'
      → (m'.address == m.address) ≡ false
      → Fits (call_peer v now entry rs m).1 m'
  Fits-kept rs m m' f (term, l, next, fresh) other =
      rw (Fits-call rs m f) (term, l, lookup-taken_by rs m m'.address other ∙ next, fresh)
