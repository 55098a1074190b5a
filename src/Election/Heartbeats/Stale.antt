-- ===== src/Election/Heartbeats/Stale.antt =====
-- A heartbeat from a leader of an older term (ddbr-server/infra/raft_state_machine.go).
use ddbr.Common.{ℕ, ◌≡◌, false, [], some, arith, Option, none}
use ddbr.Common.Int.{ℤ, negsuc, ◌<ℤ◌}
use ddbr.Rpc.{AppendEntriesResp}
use ddbr.Election.{RaftStateMachine, follower}
use ddbr.Election.Append.{UnmarshalEntry, append_entries}
use ddbr.Election.Loop.{step, next_event, heartbeat_answered}
use ddbr.Election.Leader.{stale_append_entries-follower}
use ddbr.Election.Heartbeats.{heartbeat_request}

-- What the answer to its heartbeat does to the sender; a call that panicked has none.
abbrev pub take_answer : RaftStateMachine → Option AppendEntriesResp → RaftStateMachine
take_answer l none = l
take_answer l (some resp) = heartbeat_answered l.current_term resp l

-- A leader that has stepped down to the term `t`
abbrev pub StoodDown : ℤ → RaftStateMachine → Type 0
StoodDown t l =
    (l.state ≡ follower)
    × (l.current_term ≡ t)
    × (l.voted_for ≡ negsuc 0)
    × (l.is_master ≡ false)
    × (l.config_master ≡ false)

take_answer-StoodDown :
    (t : ℤ) (l : RaftStateMachine)
    → l.current_term <ℤ t
    → StoodDown t (take_answer l (some (record { term = t; success = false })))
unfolding heartbeat_answered
take_answer-StoodDown t l b = ground arith

-- A heartbeat of a node `l` goes to a node `f` of a higher term with an empty queue. Its answer
-- makes `l` a follower of that term, without a vote and without the IsMaster flags; and when the
-- loop of `f` has taken the event that the heartbeat left, `f` is a follower too, even if it led,
-- of the term and with the log that it had.
pub stale_heartbeat-followers :
    (u : UnmarshalEntry) (now later : ℕ) (l f : RaftStateMachine)
    → l.current_term <ℤ f.current_term
    → f.events ≡ []
    → let (r, f') = append_entries u now (heartbeat_request l) f in
      let t = (step u (next_event later) f').1 in
      StoodDown f.current_term (take_answer l r)
      × (t.state ≡ follower)
      × (t.current_term ≡ f.current_term)
      × (t.logs ≡ f.logs)
unfolding step heartbeat_request
stale_heartbeat-followers u now later l f b q =
    let (a, s, t, g) = stale_append_entries-follower u now later (heartbeat_request l) f b q in
    rw a (take_answer-StoodDown f.current_term l b, s, t, g)
