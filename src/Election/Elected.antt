-- ===== src/Election/Elected.antt =====
-- How an election comes out (ddbr-server/infra/raft_state_machine.go): the timer fires, the peers'
-- answers come in, and the run loop takes them.
pub mod Unique
pub mod Reached
use ddbr.Common.{
  ℕ, zero, suc, ◌+◌, ◌/◌, ◌≤◌, ◌≡◌, ◌≢◌, refl, sym, ap, ◌∙◌, Bool, true, false, not, ◌||◌, List, [],
  ◌∷◌, ◌++◌, append_assoc, append-nil, arith, length, leb, if◌then◌else◌, Bool-cases, inl, inr,
}
use ddbr.Common.Eq.{Str}
use ddbr.Common.Int.{ℤ, pos, eqb_ℤ, eqb_ℤ_iff, ◌+ℤ◌}
use ddbr.Election.{
  RaftStateMachine, RaftEvent, candidate, leader, request_vote_response, become_leader,
  is_candidate, start_election, handle_request_vote_response, handle_become_leader, send,
}
use ddbr.Election.Append.{UnmarshalEntry}
use ddbr.Election.Loop.{Input, timer, next_event, vote_answered, step, take_from, handle_event}
use ddbr.Election.Leader.{Expired, timer_fired-Expired}

-- The machine after an execution in which the loop begins no vote request
unfoldable pub run : UnmarshalEntry → List Input → RaftStateMachine → RaftStateMachine
unfolding step
run u [] sm = sm
run u (i ∷ is) sm = run u is (step u i sm).1

-- The peers' answers to the vote requests of a term, each a grant or not, as they come in
abbrev pub answers : ℤ → List Bool → List Input → List Input
answers term [] rest = rest
answers term (b ∷ bs) rest = vote_answered term b ∷ answers term bs rest

-- The loop takes an event for each answer and one more.
abbrev pub polls : ℕ → List Bool → List Input
polls now [] = next_event now ∷ []
polls now (b ∷ bs) = next_event now ∷ polls now bs

abbrev pub granted : List Bool → ℕ
granted [] = 0
granted (true ∷ bs) = suc (granted bs)
granted (false ∷ bs) = granted bs

abbrev majority : RaftStateMachine → ℕ
majority sm = sm.total_votes / 2 + 1

-- The queue: answers, and events that make the node the leader
abbrev responses : ℤ → List Bool → List RaftEvent
responses term [] = []
responses term (b ∷ bs) = request_vote_response term b ∷ responses term bs

abbrev wins : ℕ → List RaftEvent
wins zero = []
wins (suc n) = become_leader ∷ wins n

abbrev with_queue : List RaftEvent → RaftStateMachine → RaftStateMachine
with_queue es sm = record sm { events = es }

-- How many such events there are when all answers are counted: `v` votes before, `n` needed.
won : ℕ → ℕ → List Bool → ℕ → ℕ
won n v [] j = j
won n v (true ∷ bs) j = won n (suc v) bs (if leb n (suc v) then suc j else j)
won n v (false ∷ bs) j = won n v bs j

-- The votes, `v` of them counted before.
tally : ℕ → List Bool → ℕ
tally v [] = v
tally v (true ∷ bs) = tally (suc v) bs
tally v (false ∷ bs) = tally v bs

wins-append : (j : ℕ) → wins j ++ become_leader ∷ [] ≡ wins (suc j)
wins-append zero = refl
wins-append (suc j) = ap (λ es. become_leader ∷ es) (wins-append j)

response-granted :
    (es : List RaftEvent) (sm : RaftStateMachine)
    → is_candidate sm.state ≡ true
    → let sm' = record sm { votes_received = suc sm.votes_received } in
      handle_request_vote_response sm.current_term true (with_queue es sm) ≡ (
        if leb (majority sm) (suc sm.votes_received)
        then with_queue (es ++ become_leader ∷ []) sm'
        else with_queue es sm')
unfolding handle_request_vote_response
response-granted es sm c =
    let same : eqb_ℤ sm.current_term sm.current_term ≡ true =
      ground (arith, eqb_ℤ_iff sm.current_term sm.current_term) in
    rw (c, same) refl

response-refused :
    (es : List RaftEvent) (sm : RaftStateMachine)
    → handle_request_vote_response sm.current_term false (with_queue es sm) ≡ with_queue es sm
unfolding handle_request_vote_response
response-refused es sm =
    elim (Bool-cases (not (is_candidate sm.state) || not (eqb_ℤ sm.current_term sm.current_term))) [
      | inl y ↦ rw y refl
      | inr n ↦ rw n refl
    ]

counted :
    (u : UnmarshalEntry) (now j : ℕ) (bs : List Bool) (sm : RaftStateMachine)
    → is_candidate sm.state ≡ true
    → let m = wins (won (majority sm) sm.votes_received bs j) in
      run u (polls now bs) (with_queue (responses sm.current_term bs ++ wins j) sm)
      ≡ (take_from now m
          (with_queue m (record sm { votes_received = tally sm.votes_received bs }))).1
unfolding run won tally handle_event
counted u now j [] sm c = refl
counted u now j (true ∷ bs) sm c =
    let rest = responses sm.current_term bs in
    let sm' = record sm { votes_received = suc sm.votes_received } in
    let after = response-granted (rest ++ wins j) sm c in
    let queue : (rest ++ wins j) ++ become_leader ∷ [] ≡ rest ++ wins (suc j) =
      append_assoc rest (wins j) (become_leader ∷ []) ∙ ap (λ es. rest ++ es) (wins-append j) in
    elim (Bool-cases (leb (majority sm) (suc sm.votes_received))) [
      | inl y ↦ rw y (
          ap (run u (polls now bs)) (after ∙ rw y (ap (λ es. with_queue es sm') queue))
          ∙ counted u now (suc j) bs sm' c)
      | inr n ↦ rw n (ap (run u (polls now bs)) (after ∙ rw n refl) ∙ counted u now j bs sm' c)
    ]
counted u now j (false ∷ bs) sm c =
    ap (run u (polls now bs)) (response-refused (responses sm.current_term bs ++ wins j) sm)
    ∙ counted u now j bs sm c

won-majority :
    (n v j : ℕ) (bs : List Bool)
    → (1 ≤ j → n ≤ v)
    → (n ≤ v → 1 ≤ j)
    → leb 1 (won n v bs j) ≡ leb n (tally v bs)
unfolding won tally
won-majority n v j [] f g = ground (arith, f, g)
won-majority n v j (true ∷ bs) f g = elim (Bool-cases (leb n (suc v))) [
  | inl y ↦ rw y (won-majority n (suc v) (suc j) bs (λ k. ground arith) (λ k. omega arith))
  | inr y ↦ rw y (won-majority n (suc v) j bs (λ k. ground (arith, f)) (λ k. ground arith))
]
won-majority n v j (false ∷ bs) f g = won-majority n v j bs f g

tally-granted : (v : ℕ) (bs : List Bool) → tally v bs ≡ granted bs + v
unfolding tally
tally-granted v [] = omega arith
tally-granted v (true ∷ bs) = omega (arith, tally-granted (suc v) bs)
tally-granted v (false ∷ bs) = tally-granted v bs

run-answers :
    (u : UnmarshalEntry) (term : ℤ) (bs : List Bool) (is : List Input) (sm : RaftStateMachine)
    → run u (answers term bs is) sm ≡ run u is (with_queue (sm.events ++ responses term bs) sm)
unfolding run
run-answers u term [] is sm = ap (λ es. run u is (with_queue es sm)) (sym (append-nil sm.events))
run-answers u term (b ∷ bs) is sm =
    let e = request_vote_response term b in
    run-answers u term bs is (send e sm)
    ∙ ap (λ es. run u is (with_queue es sm)) (append_assoc sm.events (e ∷ []) (responses term bs))

-- A node after an election for `term` that is won or not
abbrev pub Decided : Bool → ℤ → RaftStateMachine → RaftStateMachine → Type 0
Decided won term sm t =
    (t.state ≡ (if won then leader else candidate))
    × (t.is_master ≡ (if won then true else sm.is_master))
    × (t.config_master ≡ (if won then true else sm.config_master))
    × (t.current_term ≡ term)
    × (t.voted_for ≡ sm.node_id)
    × (t.logs ≡ sm.logs)

take_from-Decided :
    (now j : ℕ) (sm t : RaftStateMachine)
    → t.state ≡ candidate
    → t.is_master ≡ sm.is_master
    → t.config_master ≡ sm.config_master
    → t.voted_for ≡ sm.node_id
    → t.logs ≡ sm.logs
    → Decided (leb 1 j) t.current_term sm (take_from now (wins j) (with_queue (wins j) t)).1
unfolding handle_event handle_become_leader
take_from-Decided now zero sm t s a b v l = (s, a, b, refl, v, l)
take_from-Decided now (suc j) sm t s a b v l =
    let c : is_candidate t.state ≡ true = ground (arith, s) in
    rw c (ground arith, ground arith, ground arith, refl, v, l)

-- On a node with peers that does not lead and whose queue is empty, the election timer fires more
-- than half a timeout after the last heartbeat, then any number of answers to the vote requests of
-- the new term come in, each a grant or not, and then the loop takes as many events as there are
-- answers, and one more. The node then is the leader, with its IsMaster flags set, if the grants
-- and its own vote are more than half of the peers and itself, and else a candidate with the flags
-- that it had; its term is one higher, its vote is its own, and its log is as it was.
pub election-Decided :
    (u : UnmarshalEntry) (now later : ℕ) (bs : List Bool) (p : Str) (ps : List Str)
    (sm : RaftStateMachine)
    → sm.state ≢ leader
    → sm.peers ≡ p ∷ ps
    → sm.events ≡ []
    → Expired now sm
    → let term = sm.current_term +ℤ pos 1 in
      Decided
        (leb ((length sm.peers + 1) / 2 + 1) (granted bs + 1))
        term
        sm
        (run u (timer now ∷ answers term bs (polls later bs)) sm)
unfolding run step start_election
election-Decided u now later bs p ps sm n some_peers empty h =
    let term = sm.current_term +ℤ pos 1 in
    let s = start_election sm in
    let e =
      ap (run u (answers term bs (polls later bs))) (timer_fired-Expired now p ps sm n some_peers h)
      ∙ run-answers u term bs (polls later bs) s
      ∙ ap (λ es. run u (polls later bs) (with_queue (es ++ responses term bs) s)) empty
      ∙ ap (λ es. run u (polls later bs) (with_queue es s)) (sym (append-nil (responses term bs)))
      ∙ counted u later 0 bs s refl in
    let j = won (majority s) 1 bs 0 in
    let half : leb 1 j ≡ leb (majority s) (granted bs + 1) =
      won-majority (majority s) 1 0 bs (λ k. absurd (omega (arith, k)))
        (λ k. ground (arith, k, ap length some_peers))
      ∙ ap (leb (majority s)) (tally-granted 1 bs) in
    rw (e, sym half)
      (take_from-Decided later j sm (record s { votes_received = tally 1 bs }) refl refl refl refl
        refl)
