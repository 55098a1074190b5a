-- ===== src/Election/Loop/Sections.antt =====
-- Every section of the program that is due advances a node
-- (ddbr-server/infra/raft_state_machine.go).
use ddbr.Common.{ℕ, ◌≡◌, refl, sym, subst, ◌⊎◌, inl, inr, List, [], ◌∷◌, none, some, arith}
use ddbr.Common.Int.{lt-+ℤ_one, eqb_ℤ_iff, eq_of_parts}
use ddbr.Rpc.{RequestVoteReq, AppendEntriesReq}
use ddbr.Election.{
  RaftStateMachine, RaftEvent, election_timeout, request_vote, request_vote_response, heartbeat,
  become_leader,
}
use ddbr.Election.Committed.Keeps.{apply_committed-Keeps}
use ddbr.Election.Append.{UnmarshalEntry, append_entries}
use ddbr.Election.Loop.{
  VoteSection, raising, deciding, granting, silent, answered, Input, timer, timed_out, vote_section,
  next_event, vote_asked, vote_answered, entries_sent, heartbeat_answer, vote_begun, leader_check,
  cluster_known, config_given, log_applied, step, elect, take_from, handle_event, timer_fired,
  begin_request_vote, decide_section, run_vote_section,
}
use ddbr.Election.Loop.Order.{Handling, IsDue}
use ddbr.Election.Loop.Vote.{HasNext, IsReached, Follows, Advances, Follows-Advances}

elect-Advances : (sm : RaftStateMachine) → HasNext sm → Advances none sm (elect sm).0 (elect sm).1
unfolding elect
elect-Advances sm h = record {
  reached = ground arith;
  keeps = λ t c n v k. ground (arith, lt-+ℤ_one sm.current_term);
  gives = λ t c e. ground arith;
  agrees = λ t c c' n v k e. absurd (ground (arith, lt-+ℤ_one sm.current_term));
}

begin_request_vote-Advances :
    (channel : ℕ) (req : RequestVoteReq) (sm : RaftStateMachine)
    → Advances none sm (begin_request_vote channel req sm) sm
unfolding begin_request_vote decide_section
begin_request_vote-Advances channel req sm = record {
  reached = ground arith;
  keeps = λ t c n v k. ground (arith, eqb_ℤ_iff sm.voted_for req.candidate_id);
  gives = λ t c e. absurd (ground arith);
  agrees = λ t c c' n v k e. absurd (ground arith);
}

run_vote_section-Advances :
    (s : VoteSection) (sm : RaftStateMachine)
    → IsReached (some s) sm
    → Advances (some s) sm (run_vote_section s sm).0 (run_vote_section s sm).1
unfolding run_vote_section decide_section
run_vote_section-Advances (raising channel req) sm r = record {
  reached = omega arith;
  keeps = λ t c n v k. (inl k, k);
  gives = λ t c e. absurd (ground (arith, e));
  agrees = λ t c c' n v k e. absurd (ground (arith, e));
}
run_vote_section-Advances (deciding channel req term) sm r = record {
  reached = ground arith;
  keeps = λ t c n v k. ground arith;
  gives = λ t c e. absurd (ground arith);
  agrees = λ t c c' n v k e. absurd (ground arith);
}
run_vote_section-Advances (granting channel req term) sm r = record {
  reached = tt;
  keeps = λ t c n v k. ground arith;
  gives = λ t c e. ground (arith, eq_of_parts sm.current_term term);
  agrees = λ t c c' n v k e. ground arith;
}

append_entries-Follows :
    (u : UnmarshalEntry) (now : ℕ) (req : AppendEntriesReq) (sm : RaftStateMachine)
    → Follows sm (append_entries u now req sm).1
unfolding append_entries
append_entries-Follows u now req sm = ground arith

handle_event-Advances :
    (now : ℕ) (e : RaftEvent) (sm : RaftStateMachine)
    → HasNext sm
    → Advances none sm (handle_event now e sm).0 (handle_event now e sm).1
unfolding handle_event
handle_event-Advances now election_timeout sm h = elect-Advances sm h
handle_event-Advances now (request_vote channel req) sm h =
    begin_request_vote-Advances channel req sm
handle_event-Advances now (request_vote_response term granted) sm h =
    Follows-Advances none sm (handle_event now (request_vote_response term granted) sm).1 silent
      refl refl tt (ground arith)
handle_event-Advances now heartbeat sm h =
    Follows-Advances none sm (handle_event now heartbeat sm).1 silent refl refl tt (ground arith)
handle_event-Advances now become_leader sm h =
    Follows-Advances none sm (handle_event now become_leader sm).1 silent refl refl tt
      (ground arith)

take_from-Advances :
    (now : ℕ) (es : List RaftEvent) (sm : RaftStateMachine)
    → HasNext sm
    → Advances none sm (take_from now es sm).0 (take_from now es sm).1
take_from-Advances now [] sm h = Follows-Advances none sm sm silent refl refl tt (inr (refl, refl))
take_from-Advances now (e ∷ es) sm h =
    let a = handle_event-Advances now e (record sm { events = es }) h in
    record { reached = a.reached; keeps = a.keeps; gives = a.gives; agrees = a.agrees }

timer_fired-cases :
    (now : ℕ) (sm : RaftStateMachine)
    → (timer_fired now sm ≡ (silent, sm)) ⊎ (timer_fired now sm ≡ elect sm)
unfolding timer_fired
timer_fired-cases now sm = ground arith

timer_fired-Advances :
    (now : ℕ) (sm : RaftStateMachine)
    → HasNext sm
    → Advances none sm (timer_fired now sm).0 (timer_fired now sm).1
timer_fired-Advances now sm h = elim (timer_fired-cases now sm) [
  | inl e ↦ rw e (Follows-Advances none sm sm silent refl refl tt (inr (refl, refl)))
  | inr e ↦ rw e (elect-Advances sm h)
]

-- Every section that is due advances the node. The term is an int64 that can go up by one.
pub step-Advances :
    (u : UnmarshalEntry) (h : Handling) (i : Input) (sm : RaftStateMachine)
    → HasNext sm
    → IsDue h i
    → IsReached h sm
    → Advances h sm (step u i sm).0 (step u i sm).1
unfolding step
step-Advances u h (timer now) sm n d r =
    subst (λ k. Advances k sm (timer_fired now sm).0 (timer_fired now sm).1) (sym d)
      (timer_fired-Advances now sm n)
step-Advances u h timed_out sm n d r =
    subst (λ k. Advances k sm (elect sm).0 (elect sm).1) (sym d) (elect-Advances sm n)
step-Advances u h (vote_section s) sm n d r =
    subst (λ k. Advances k sm (run_vote_section s sm).0 (run_vote_section s sm).1) (sym d)
      (run_vote_section-Advances s sm (subst (λ k. IsReached k sm) d r))
step-Advances u h (next_event now) sm n d r =
    subst (λ k. Advances k sm (take_from now sm.events sm).0 (take_from now sm.events sm).1) (sym d)
      (take_from-Advances now sm.events sm n)
step-Advances u h (vote_asked channel req) sm n d r =
    Follows-Advances h sm (step u (vote_asked channel req) sm).1 silent refl refl r
      (inr (refl, refl))
step-Advances u h (vote_answered term granted) sm n d r =
    Follows-Advances h sm (step u (vote_answered term granted) sm).1 silent refl refl r
      (inr (refl, refl))
step-Advances u h (entries_sent now req) sm n d r =
    Follows-Advances h sm (step u (entries_sent now req) sm).1
      (answered (append_entries u now req sm).0) refl refl r (append_entries-Follows u now req sm)
step-Advances u h (heartbeat_answer term resp) sm n d r =
    Follows-Advances h sm (step u (heartbeat_answer term resp) sm).1 silent refl refl r
      (ground arith)
step-Advances u h (vote_begun now) sm n d r =
    Follows-Advances h sm (step u (vote_begun now) sm).1 silent refl refl r (ground arith)
step-Advances u h (leader_check now none) sm n d r =
    Follows-Advances h sm (step u (leader_check now none) sm).1 silent refl refl r (ground arith)
step-Advances u h (leader_check now (some peers)) sm n d r =
    Follows-Advances h sm (step u (leader_check now (some peers)) sm).1 silent refl refl r
      (inr (refl, refl))
step-Advances u h (cluster_known []) sm n d r =
    Follows-Advances h sm (step u (cluster_known []) sm).1 silent refl refl r (inr (refl, refl))
step-Advances u h (cluster_known (host ∷ hosts)) sm n d r =
    Follows-Advances h sm (step u (cluster_known (host ∷ hosts)) sm).1 silent refl refl r
      (inr (refl, refl))
step-Advances u h (config_given config) sm n d r =
    Follows-Advances h sm (step u (config_given config) sm).1 silent refl refl r (inr (refl, refl))
step-Advances u h (log_applied v kv) sm n d r =
    let (a, e) = apply_committed-Keeps v (sm, kv) in
    Follows-Advances h sm (step u (log_applied v kv) sm).1 silent refl refl r
      (subst (Follows sm) (sym e) (inr (refl, refl)))
