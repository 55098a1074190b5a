-- ===== src/Election/Loop/Falls.antt =====
-- A request that comes in while the loop handles a vote request
-- (ddbr-server/infra/raft_state_machine.go).
use ddbr.Common.{ℕ, ◌≡◌, refl, sym, ap, subst, List, ◌∷◌, true, false, arith}
use ddbr.Common.Int.{◌<ℤ◌, ltb_ℤ}
use ddbr.Rpc.{RequestVoteReq, AppendEntriesReq}
use ddbr.Election.{RaftStateMachine, RaftEvent, request_vote}
use ddbr.Election.Append.{UnmarshalEntry, append_entries}
use ddbr.Election.Loop.{
  step, next_event, entries_sent, vote_section, raising, goes_on, take_from, handle_event,
  begin_request_vote, run_vote_section,
}

append_entries-term :
    (u : UnmarshalEntry) (now : ℕ) (req : AppendEntriesReq) (sm : RaftStateMachine)
    → sm.current_term <ℤ req.term
    → (append_entries u now req sm).1.current_term ≡ req.term
unfolding append_entries
append_entries-term u now req sm l = ground arith

take_from-raising :
    (now channel : ℕ) (req : RequestVoteReq) (es es' : List RaftEvent) (sm : RaftStateMachine)
    → sm.current_term <ℤ req.term
    → es ≡ request_vote channel req ∷ es'
    → take_from now es sm ≡ (goes_on (raising channel req), record sm { events = es' })
unfolding handle_event begin_request_vote
take_from-raising now channel req es es' sm l q =
    let lower : ltb_ℤ req.term sm.current_term ≡ false = ground (arith, l) in
    let higher : ltb_ℤ sm.current_term req.term ≡ true = ground (arith, l) in
    rw (q, lower, higher) refl

-- A vote request of a higher term is at the front of the queue. If an AppendEntries request of a
-- still higher term comes in after the loop has compared the vote request's term and before it
-- writes it, then the node goes to the term of the AppendEntries request, and from there back to
-- the lower term of the vote request.
pub next_event-lowers_term :
    (u : UnmarshalEntry) (now later channel : ℕ) (vote : RequestVoteReq) (req : AppendEntriesReq)
    (es : List RaftEvent) (sm : RaftStateMachine)
    → sm.current_term <ℤ vote.term
    → vote.term <ℤ req.term
    → sm.events ≡ request_vote channel vote ∷ es
    → let (o, s) = step u (next_event now) sm in
      let s' = (step u (entries_sent later req) s).1 in
      (o ≡ goes_on (raising channel vote))
      × (s'.current_term ≡ req.term)
      × ((step u (vote_section (raising channel vote)) s').1.current_term ≡ vote.term)
unfolding step run_vote_section
next_event-lowers_term u now later channel vote req es sm l h q =
    let e = take_from-raising now channel vote sm.events es sm l q in
    (
      ap (λ r. r.0) e,
      subst (λ s. (append_entries u later req s).1.current_term ≡ req.term) (sym (ap (λ r. r.1) e))
          (append_entries-term u later req (record sm { events = es }) (omega (arith, l, h))),
      refl,
    )
