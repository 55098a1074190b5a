-- ===== src/Election/Heartbeats/Quiet.antt =====
-- A node that hears from its leader often enough starts no election
-- (ddbr-server/infra/raft_state_machine.go).
use ddbr.Common.{
  ℕ, ◌-◌, ◌≤◌, ◌≡◌, refl, true, false, List, [], ◌∷◌, ◌++◌, some, none, arith, Bool-cases, inl, inr,
}
use ddbr.Common.Int.{ℤ, pos, ltb_ℤ, leb_ℤ, ◌≤ℤ◌, half}
use ddbr.Election.{RaftStateMachine, RaftEvent, is_leader, send, heartbeat}
use ddbr.Election.Append.{UnmarshalEntry, append_entries, append_logs, step_down}
use ddbr.Election.Loop.{
  Input, timer, next_event, entries_sent, vote_begun, Output, silent, voted, started, answered,
  goes_on, step, take_from, handle_event, timer_fired, begin_vote, since_heartbeat,
  heartbeat_answered,
}
use ddbr.Election.Heartbeats.{heartbeat_request}

-- What happens at a node while it has a leader: a heartbeat, its election timer, an event that the
-- loop takes, and a BeginVote, each at a time.
pub data Moment : Type 0 where
  beat : ℕ → Moment
  fired : ℕ → Moment
  handled : ℕ → Moment
  begun : ℕ → Moment

abbrev input : RaftStateMachine → Moment → Input
input l (beat now) = entries_sent now (heartbeat_request l)
input l (fired now) = timer now
input l (handled now) = next_event now
input l (begun now) = vote_begun now

unfoldable pub moments :
    UnmarshalEntry
    → RaftStateMachine
    → List Moment
    → RaftStateMachine
    → List Output × RaftStateMachine
unfolding step
moments u l [] f = ([], f)
moments u l (m ∷ ms) f =
    let (o, f') = step u (input l m) f in let (os, f'') = moments u l ms f' in (o ∷ os, f'')

-- Where `last` is the time of the last heartbeat, the timer fires and BeginVote runs within half a
-- time-out `h` of it, and the loop's clock is not behind it.
abbrev pub IsPaced : ℤ → ℕ → List Moment → Type 0
IsPaced h last [] = Unit {0}
IsPaced h last (beat now ∷ ms) = IsPaced h now ms
IsPaced h last (fired now ∷ ms) = (pos (now - last) ≤ℤ h) × IsPaced h last ms
IsPaced h last (handled now ∷ ms) = (last ≤ now) × IsPaced h last ms
IsPaced h last (begun now ∷ ms) = (pos (now - last) ≤ℤ h) × IsPaced h last ms

-- An output that starts no election and gives no vote; an answer to a heartbeat is positive and
-- leaves the leader `l` as it is.
abbrev pub IsCalm : RaftStateMachine → Output → Type 0
IsCalm l silent = Unit {0}
IsCalm l (voted channel req resp) = ⊥
IsCalm l (started term candidate reqs) = ⊥
IsCalm l (goes_on s) = ⊥
IsCalm l (answered none) = ⊥
IsCalm l (answered (some resp)) =
    (resp.success ≡ true) × (heartbeat_answered l.current_term resp l ≡ l)

abbrev pub AreCalm : RaftStateMachine → List Output → Type 0
AreCalm l [] = Unit {0}
AreCalm l (o ∷ os) = IsCalm l o × AreCalm l os

abbrev pub AreHeartbeats : List RaftEvent → Type 0
AreHeartbeats [] = Unit {0}
AreHeartbeats (e ∷ es) = (e ≡ heartbeat) × AreHeartbeats es

AreHeartbeats-send : (es : List RaftEvent) → AreHeartbeats es → AreHeartbeats (es ++ heartbeat ∷ [])
AreHeartbeats-send [] a = (refl, tt)
AreHeartbeats-send (e ∷ es) (h, a) = (h, AreHeartbeats-send es a)

-- A node `f'` that came from `f` and heard from the leader `l` at the time `last` or later
pub record Led (l : RaftStateMachine) (last : ℕ) (f f' : RaftStateMachine) : Type 0 where
  pub term : f'.current_term ≤ℤ l.current_term
  pub state : is_leader f'.state ≡ false
  pub clock : last ≤ f'.last_heartbeat
  pub timeout : f'.timeout ≡ f.timeout
  pub queue : AreHeartbeats f'.events
  pub logs : f'.logs ≡ f.logs
  pub commit : f'.commit_index ≡ f.commit_index

step_down-Led :
    (l f g : RaftStateMachine) (last now : ℕ)
    → Led l last f g
    → Led l now f (step_down l.current_term (send heartbeat (record g { last_heartbeat = now })))
unfolding step_down
step_down-Led l f g last now k = elim (Bool-cases (ltb_ℤ g.current_term l.current_term)) [
  | inl t ↦ rw t record {
    term = omega arith;
    state = refl;
    clock = omega arith;
    timeout = k.timeout;
    queue = AreHeartbeats-send g.events k.queue;
    logs = k.logs;
    commit = k.commit;
  }
  | inr n ↦ rw n record {
    term = k.term;
    state = k.state;
    clock = omega arith;
    timeout = k.timeout;
    queue = AreHeartbeats-send g.events k.queue;
    logs = k.logs;
    commit = k.commit;
  }
]

step-beat :
    (u : UnmarshalEntry) (now last : ℕ) (l f g : RaftStateMachine)
    → Led l last f g
    → let (o, g') = step u (entries_sent now (heartbeat_request l)) g in IsCalm l o × Led l now f g'
unfolding step heartbeat_request append_entries append_logs heartbeat_answered
step-beat u now last l f g k =
    let n : ltb_ℤ l.current_term g.current_term ≡ false = ground (arith, k.term) in
    rw n ((refl, rw n refl), step_down-Led l f g last now k)

take_from-Led :
    (now last : ℕ) (l f g : RaftStateMachine) (es : List RaftEvent)
    → last ≤ now
    → AreHeartbeats es
    → Led l last f g
    → let (o, g') = take_from now es g in IsCalm l o × Led l last f g'
unfolding handle_event
take_from-Led now last l f g [] b a k = (tt, k)
take_from-Led now last l f g (e ∷ es) b (h, a) k = rw h (
  tt,
  record {
    term = k.term;
    state = refl;
    clock = b;
    timeout = k.timeout;
    queue = a;
    logs = k.logs;
    commit = k.commit;
  },
)

not_due :
    (now last : ℕ) (l f g : RaftStateMachine)
    → pos (now - last) ≤ℤ half f.timeout
    → Led l last f g
    → ltb_ℤ (half g.timeout) (since_heartbeat now g) ≡ false
not_due now last l f g p k = rw k.timeout (ground (arith, p, k.clock))

timer_fired-Led :
    (now last : ℕ) (l f g : RaftStateMachine)
    → pos (now - last) ≤ℤ half f.timeout
    → Led l last f g
    → timer_fired now g ≡ (silent, g)
unfolding timer_fired
timer_fired-Led now last l f g p k = rw (k.state, not_due now last l f g p k) refl

begin_vote-Led :
    (now last : ℕ) (l f g : RaftStateMachine)
    → pos (now - last) ≤ℤ half f.timeout
    → Led l last f g
    → begin_vote now g ≡ g
unfolding begin_vote
begin_vote-Led now last l f g p k =
    let n : leb_ℤ (since_heartbeat now g) (half g.timeout) ≡ true =
      ground (arith, not_due now last l f g p k) in
    rw (k.state, n) refl

heard : ℕ → List Moment → ℕ
heard last [] = last
heard last (beat now ∷ ms) = heard now ms
heard last (m ∷ ms) = heard last ms

moments-Led :
    (u : UnmarshalEntry) (l : RaftStateMachine) (ms : List Moment) (last : ℕ)
    (f g : RaftStateMachine)
    → IsPaced (half f.timeout) last ms
    → Led l last f g
    → let (os, g') = moments u l ms g in AreCalm l os × Led l (heard last ms) f g'
unfolding moments heard step
moments-Led u l [] last f g p k = (tt, k)
moments-Led u l (beat now ∷ ms) last f g p k =
    let (c, k') = step-beat u now last l f g k in
    let (cs, r) = moments-Led u l ms now f (step u (input l (beat now)) g).1 p k' in ((c, cs), r)
moments-Led u l (fired now ∷ ms) last f g (d, p) k =
    rw (timer_fired-Led now last l f g d k)
      (let (cs, r) = moments-Led u l ms last f g p k in ((tt, cs), r))
moments-Led u l (handled now ∷ ms) last f g (b, p) k =
    let (c, k') = take_from-Led now last l f g g.events b k.queue k in
    let (cs, r) = moments-Led u l ms last f (step u (input l (handled now)) g).1 p k' in
    ((c, cs), r)
moments-Led u l (begun now ∷ ms) last f g (d, p) k =
    rw (begin_vote-Led now last l f g d k)
      (let (cs, r) = moments-Led u l ms last f g p k in ((tt, cs), r))

-- Over any course of heartbeats from one leader `l`, firings of the election timer, BeginVotes and
-- events that the loop takes, on a node that does not lead, has no higher term and nothing but
-- heartbeats in its queue: if the timer fires and BeginVote runs only within half a time-out of the
-- last heartbeat, and no clock of the loop is behind it, then no election starts, every heartbeat
-- is answered with success and leaves the leader as it is, and the node's term does not pass the
-- leader's, it does not lead, and its log and commit index are the ones that it had.
pub moments-calm :
    (u : UnmarshalEntry) (l : RaftStateMachine) (ms : List Moment) (f : RaftStateMachine)
    → f.current_term ≤ℤ l.current_term
    → is_leader f.state ≡ false
    → AreHeartbeats f.events
    → IsPaced (half f.timeout) f.last_heartbeat ms
    → let (os, f') = moments u l ms f in
      AreCalm l os
      × (f'.current_term ≤ℤ l.current_term)
      × (is_leader f'.state ≡ false)
      × (f'.logs ≡ f.logs)
      × (f'.commit_index ≡ f.commit_index)
moments-calm u l ms f t s a p =
    let (c, k) = moments-Led u l ms f.last_heartbeat f f p (record {
      term = t;
      state = s;
      clock = omega arith;
      timeout = refl;
      queue = a;
      logs = refl;
      commit = refl;
    }) in
    (c, k.term, k.state, k.logs, k.commit)
