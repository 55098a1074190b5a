-- ===== src/RaftState/Vote/Count.antt =====
-- What an election of the Raft state counts (ddbr-server/infra/raft_state.go).
use ddbr.Common.{
  ℕ, suc, ◌+◌, ◌*◌, ◌≤◌, ◌<◌, ◌≡◌, refl, subst, sym, ap, ◌∙◌, Option, Bool, true, false, List, [],
  ◌∷◌, none, some, length, leb, arith, if◌then◌else◌,
}
use ddbr.Common.Eq.{Str, str_Eq}
use ddbr.RaftState.{RaftState}
use ddbr.RaftState.Vote.{
  Member, Campaign, Section, answered, failed, counted, led, beat_answered, peers_set, step, run,
  start_vote, ask_votes, open_campaign, vote_request, become_leader, plan_for, next_term,
  begin_vote, with_raft, votes_needed,
}

-- The answers in a run that grant the vote.
abbrev pub grants : List Section → ℕ
grants [] = 0
grants (answered resp ∷ xs) = if resp.vote_granted then suc (grants xs) else grants xs
grants (failed ∷ xs) = grants xs
grants (counted ∷ xs) = grants xs
grants (led ∷ xs) = grants xs
grants (beat_answered resp ∷ xs) = grants xs
grants (peers_set peers ∷ xs) = grants xs

-- The count is honest: `seen` grants have come in, and who is or is about to be the leader has
-- them.
record IsHonest (seen : ℕ) (s : Campaign × Member) : Type 0 where
  has_count : s.0.votes_received + s.0.granted ≤ suc seen
  has_votes : 0 < s.0.elected → s.0.votes_needed ≤ suc seen
  has_lead : s.1.raft.is_master ≡ true → s.0.votes_needed ≤ suc seen

step-IsHonest :
    (x : Section) (seen : ℕ) (s : Campaign × Member)
    → IsHonest seen s
    → IsHonest (seen + grants (x ∷ [])) (step x s)
unfolding step
step-IsHonest (answered resp) seen (c, m) h = record {
  has_count = ground (arith, h.has_count);
  has_votes = ground (arith, h.has_count, h.has_votes);
  has_lead = ground (arith, h.has_votes, h.has_lead);
}
step-IsHonest failed seen (c, m) h = record {
  has_count = ground (arith, h.has_count);
  has_votes = ground (arith, h.has_count, h.has_votes);
  has_lead = ground (arith, h.has_votes, h.has_lead);
}
step-IsHonest counted seen (c, m) h = record {
  has_count = ground (arith, h.has_count);
  has_votes = ground (arith, h.has_count, h.has_votes);
  has_lead = ground (arith, h.has_votes, h.has_lead);
}
step-IsHonest led seen (c, m) h = record {
  has_count = ground (arith, h.has_count);
  has_votes = ground (arith, h.has_count, h.has_votes);
  has_lead = ground (arith, h.has_votes, h.has_lead);
}
step-IsHonest (beat_answered resp) seen (c, m) h = record {
  has_count = ground (arith, h.has_count);
  has_votes = ground (arith, h.has_count, h.has_votes);
  has_lead = ground (arith, h.has_votes, h.has_lead);
}
step-IsHonest (peers_set peers) seen (c, m) h = record {
  has_count = ground (arith, h.has_count);
  has_votes = ground (arith, h.has_count, h.has_votes);
  has_lead = ground (arith, h.has_votes, h.has_lead);
}

run-IsHonest :
    (xs : List Section) (seen : ℕ) (s : Campaign × Member)
    → IsHonest seen s
    → IsHonest (seen + grants xs) (run xs s)
unfolding run
run-IsHonest [] seen s h = subst (λ n. IsHonest n s) (omega arith) h
run-IsHonest (x ∷ xs) seen s h =
    subst (λ n. IsHonest n (run xs (step x s))) (grants-cons seen x xs)
      (run-IsHonest xs (seen + grants (x ∷ [])) (step x s) (step-IsHonest x seen s h))
  where
    grants-cons :
        (n : ℕ) (y : Section) (ys : List Section)
        → n + grants (y ∷ []) + grants ys ≡ n + grants (y ∷ ys)
    grants-cons n (answered resp) ys = ground arith
    grants-cons n failed ys = ground arith
    grants-cons n counted ys = ground arith
    grants-cons n led ys = ground arith
    grants-cons n (beat_answered resp) ys = ground arith
    grants-cons n (peers_set peers) ys = ground arith

opened-IsHonest :
    (c : Campaign) (m : Member)
    → m.raft.is_master ≡ false
    → c.votes_received ≡ 1
    → c.granted ≡ 0
    → c.elected ≡ 0
    → IsHonest 0 (c, m)
opened-IsHonest c m n r g l = record {
  has_count = ground (arith, r, g);
  has_votes = ground (arith, l);
  has_lead = ground (arith, n);
}

asks-open :
    (b : Bool) (d c : Campaign) (m' m : Member)
    → (if b then (let s : Option Campaign × Member = (none, m') in s) else (some d, m)).0 ≡ some c
    → (c ≡ d)
      × ((if b then (let s : Option Campaign × Member = (none, m') in s) else (some d, m)).1 ≡ m)
asks-open true d c m' m e = absurd (ground arith)
asks-open false d c m' m e = (ground (arith, e), refl)

ask_votes-open :
    (ps : List Str) (rs : RaftState) (m : Member) (c : Campaign)
    → (ask_votes (plan_for ps rs) m).0 ≡ some c
    → (c ≡ open_campaign (vote_request rs) ps) × ((ask_votes (plan_for ps rs) m).1 ≡ m)
ask_votes-open [] rs m c e = absurd (ground arith)
ask_votes-open (p ∷ ps) rs m c e =
    asks-open (leb (votes_needed (p ∷ ps)) 1) (open_campaign (vote_request rs) (p ∷ ps)) c
      (become_leader m) m e

-- An election that asks the peers is the one that the first section planned.
pub start_vote-open :
    (m : Member) (c : Campaign)
    → (start_vote m).0 ≡ some c
    → (c ≡ open_campaign (vote_request (next_term m.raft)) m.raft.peers)
      × ((start_vote m).1 ≡ with_raft (next_term m.raft) m)
unfolding start_vote begin_vote
start_vote-open m c e =
    ask_votes-open m.raft.peers (next_term m.raft) (with_raft (next_term m.raft) m) c e

start_vote-IsHonest :
    (m : Member) (c : Campaign)
    → m.raft.is_master ≡ false
    → (start_vote m).0 ≡ some c
    → IsHonest 0 (c, (start_vote m).1)
unfolding next_term
start_vote-IsHonest m c n e =
    let (o, k) = start_vote-open m c e in
    subst (λ x. IsHonest 0 (x, (start_vote m).1)) (sym o)
      (subst (λ x. IsHonest 0 (open_campaign (vote_request (next_term m.raft)) m.raft.peers, x))
        (sym k)
        (opened-IsHonest (open_campaign (vote_request (next_term m.raft)) m.raft.peers)
          (with_raft (next_term m.raft) m) n refl refl refl))

step-votes_needed :
    (x : Section) (s : Campaign × Member) → (step x s).0.votes_needed ≡ s.0.votes_needed
unfolding step
step-votes_needed (answered resp) (c, m) = ground arith
step-votes_needed failed (c, m) = ground arith
step-votes_needed counted (c, m) = ground arith
step-votes_needed led (c, m) = ground arith
step-votes_needed (beat_answered resp) (c, m) = refl
step-votes_needed (peers_set peers) (c, m) = refl

run-votes_needed :
    (xs : List Section) (s : Campaign × Member) → (run xs s).0.votes_needed ≡ s.0.votes_needed
unfolding run
run-votes_needed [] s = refl
run-votes_needed (x ∷ xs) s = run-votes_needed xs (step x s) ∙ step-votes_needed x s

-- An election that asks the peers, on a node that does not lead: whatever answers, failures,
-- heartbeats and changes of the peers come in, and in whatever order the goroutines run, the node
-- leads only if its own vote and the answers that grant one are more than half as many as the peers
-- were.
pub start_vote-majority :
    (m : Member) (c : Campaign) (xs : List Section)
    → m.raft.is_master ≡ false
    → (start_vote m).0 ≡ some c
    → (run xs (c, (start_vote m).1)).1.raft.is_master ≡ true
    → length m.raft.peers < 2 * suc (grants xs)
start_vote-majority m c xs n e l =
    let h = start_vote-IsHonest m c n e in
    let k = ap (λ x. x.votes_needed) (start_vote-open m c e).0 in
    let b = (run-IsHonest xs 0 (c, (start_vote m).1) h).has_lead l in
    omega (arith, b, k, run-votes_needed xs (c, (start_vote m).1))
