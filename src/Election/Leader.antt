-- ===== src/Election/Leader.antt =====
-- How a node becomes leader, and stops being one (ddbr-server/infra/raft_state_machine.go).
use ddbr.Common.{
  ℕ, ◌+◌, ◌≡◌, ◌≢◌, refl, sym, ap, ◌∙◌, subst, true, false, List, [], ◌∷◌, none, some, arith,
  length,
}
use ddbr.Common.Eq.{Str}
use ddbr.Common.Int.{ℤ, pos, ◌<ℤ◌, ◌+ℤ◌, ltb_ℤ, half}
use ddbr.Rpc.{RequestVoteReq, AppendEntriesReq}
use ddbr.Election.{
  RaftStateMachine, RaftEvent, NodeState, follower, candidate, leader, election_timeout,
  request_vote, request_vote_response, heartbeat, become_leader, handle_request_vote,
  start_election, is_leader,
}
use ddbr.Election.Committed.Keeps.{apply_committed-Keeps}
use ddbr.Election.Append.{UnmarshalEntry, append_entries}
use ddbr.Election.Loop.{
  Input, timer, timed_out, vote_section, raising, deciding, granting, next_event, vote_asked,
  vote_answered, entries_sent, heartbeat_answer, vote_begun, leader_check, cluster_known,
  config_given, log_applied, step, take_from, handle_event, timer_fired, since_heartbeat,
}

take_from-leader :
    (now : ℕ) (es : List RaftEvent) (sm : RaftStateMachine)
    → sm.state ≢ leader
    → (take_from now es sm).1.state ≡ leader
    → (sm.state ≡ candidate) × (rest : List RaftEvent) × (es ≡ become_leader ∷ rest)
unfolding handle_event
take_from-leader now [] sm n h = absurd (n h)
take_from-leader now (election_timeout ∷ es) sm n h = absurd (ground arith)
take_from-leader now (request_vote channel req ∷ es) sm n h = absurd (ground arith)
take_from-leader now (request_vote_response term granted ∷ es) sm n h = absurd (ground arith)
take_from-leader now (heartbeat ∷ es) sm n h = absurd (ground arith)
take_from-leader now (become_leader ∷ es) sm n h = (ground arith, es, refl)

-- Only one section makes a node the leader: the loop takes the event for it from the front of the
-- queue, and the node is a candidate.
pub step-leader :
    (u : UnmarshalEntry) (i : Input) (sm : RaftStateMachine)
    → sm.state ≢ leader
    → (step u i sm).1.state ≡ leader
    → ((now : ℕ) × (i ≡ next_event now))
      × (sm.state ≡ candidate)
      × (rest : List RaftEvent) × (sm.events ≡ become_leader ∷ rest)
unfolding step
step-leader u (timer now) sm n h = absurd (ground arith)
step-leader u timed_out sm n h = absurd (ground arith)
step-leader u (vote_section (raising channel req)) sm n h = absurd (ground arith)
step-leader u (vote_section (deciding channel req term)) sm n h = absurd (n h)
step-leader u (vote_section (granting channel req term)) sm n h = absurd (n h)
step-leader u (next_event now) sm n h =
    let (c, rest, q) = take_from-leader now sm.events sm n h in ((now, refl), c, rest, q)
step-leader u (vote_asked channel req) sm n h = absurd (n h)
step-leader u (vote_answered term granted) sm n h = absurd (n h)
step-leader u (entries_sent now req) sm n h = absurd (ground arith)
step-leader u (heartbeat_answer term resp) sm n h = absurd (ground arith)
step-leader u (vote_begun now) sm n h = absurd (ground arith)
step-leader u (leader_check now none) sm n h = absurd (ground arith)
step-leader u (leader_check now (some peers)) sm n h = absurd (n h)
step-leader u (cluster_known []) sm n h = absurd (n h)
step-leader u (cluster_known (host ∷ hosts)) sm n h = absurd (n h)
step-leader u (config_given config) sm n h = absurd (n h)
step-leader u (log_applied v kv) sm n h =
    let (a, e) = apply_committed-Keeps v (sm, kv) in absurd (n (sym (ap (λ t. t.state) e) ∙ h))

pub is_leader-not : (s : NodeState) → s ≢ leader → is_leader s ≡ false
is_leader-not s n = ground arith

abbrev pub Expired : ℕ → RaftStateMachine → Type 0
Expired now sm = ltb_ℤ (half sm.timeout) (since_heartbeat now sm) ≡ true

pub timer_fired-Expired :
    (now : ℕ) (p : Str) (ps : List Str) (sm : RaftStateMachine)
    → sm.state ≢ leader
    → sm.peers ≡ p ∷ ps
    → Expired now sm
    → (timer_fired now sm).1 ≡ start_election sm
unfolding timer_fired
timer_fired-Expired now p ps sm n e h = rw (is_leader-not sm.state n, h, e) refl

-- A leader of the term, elected with one vote out of `total`.
abbrev pub LeadsAlone : ℤ → ℕ → RaftStateMachine → Type 0
LeadsAlone term total t =
    (t.state ≡ leader) × (t.current_term ≡ term) × (t.votes_received ≡ 1) × (t.total_votes ≡ total)

take_from-start_election :
    (now : ℕ) (es rest : List RaftEvent) (sm : RaftStateMachine)
    → es ≡ become_leader ∷ rest
    → LeadsAlone
        (sm.current_term +ℤ pos 1)
        (length sm.peers + 1)
        (take_from now es (start_election sm)).1
unfolding handle_event start_election
take_from-start_election now [] rest sm q = absurd (ground arith)
take_from-start_election now (e ∷ es) rest sm q =
    let g : e ≡ become_leader = ground (arith, q) in rw g (refl, refl, refl, refl)

abbrev pub timer_then_event : UnmarshalEntry → ℕ → RaftStateMachine → RaftStateMachine
timer_then_event u now sm = (step u (next_event now) (step u (timer now) sm).1).1

-- If the event of a won election waits at the front of the queue of a node with peers that does not
-- lead, and its election timer fires more than half a timeout after its last heartbeat, then the
-- node leads in the next term with one vote, its own, out of one for each peer and itself.
pub timer_then_event-one_vote :
    (u : UnmarshalEntry) (now : ℕ) (p : Str) (ps : List Str) (rest : List RaftEvent)
    (sm : RaftStateMachine)
    → sm.state ≢ leader
    → sm.peers ≡ p ∷ ps
    → sm.events ≡ become_leader ∷ rest
    → Expired now sm
    → LeadsAlone (sm.current_term +ℤ pos 1) (length sm.peers + 1) (timer_then_event u now sm)
unfolding step start_election
timer_then_event-one_vote u now p ps rest sm n e q h =
    subst
      (λ t.
        LeadsAlone (sm.current_term +ℤ pos 1) (length sm.peers + 1) (take_from now t.events t).1)
      (sym (timer_fired-Expired now p ps sm n e h))
      (take_from-start_election now sm.events rest sm q)

-- A node that sees a vote request of a higher term, a leader too, becomes a follower of that term,
-- but neither of its IsMaster flags changes.
pub handle_request_vote-deposed :
    (req : RequestVoteReq) (sm : RaftStateMachine)
    → sm.current_term <ℤ req.term
    → let t = (handle_request_vote req sm).1 in
      (t.state ≡ follower)
      × (t.current_term ≡ req.term)
      × (t.is_master ≡ sm.is_master)
      × (t.config_master ≡ sm.config_master)
unfolding handle_request_vote
handle_request_vote-deposed req sm l = ground arith

-- An AppendEntries request of an older term is refused, and yet the heartbeat event that it leaves
-- in an empty queue turns the node, a leader too, into a follower; its term and log stay.
pub stale_append_entries-follower :
    (u : UnmarshalEntry) (now later : ℕ) (req : AppendEntriesReq) (sm : RaftStateMachine)
    → req.term <ℤ sm.current_term
    → sm.events ≡ []
    → let t = (step u (next_event later) (step u (entries_sent now req) sm).1).1 in
      ((append_entries u now req sm).0 ≡ some (record { term = sm.current_term; success = false }))
      × (t.state ≡ follower)
      × (t.current_term ≡ sm.current_term)
      × (t.logs ≡ sm.logs)
unfolding step
stale_append_entries-follower u now later req sm l q = ground (arith, q)
