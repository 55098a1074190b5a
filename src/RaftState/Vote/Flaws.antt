-- ===== src/RaftState/Vote/Flaws.antt =====
-- Two elections that the count does not justify (ddbr-server/infra/raft_state.go).
use ddbr.Common.{◌≡◌, ◌≢◌, refl, subst, sym, ap, ◌∙◌, true, false, [], ◌∷◌, none, some, arith}
use ddbr.Common.Eq.{Str, str_Eq, str_eq}
use ddbr.Common.Int.{ℤ, pos, ◌<ℤ◌, ◌+ℤ◌, eqb_ℤ_iff}
use ddbr.Rpc.{RequestVoteReq, RequestVoteResp}
use ddbr.RaftState.Vote.{
  Member, Campaign, answered, counted, led, run, start_vote, begin_vote, ask_votes, plan_for,
  next_term, with_raft, open_campaign, vote_request, become_leader,
}
use ddbr.RaftState.Vote.Count.{start_vote-open}

abbrev pub LeadsIn : ℤ → Member → Type 0
LeadsIn term m = (m.raft.is_master ≡ true) × (m.raft.current_term ≡ term)

become_leader-LeadsIn : (m : Member) → LeadsIn m.raft.current_term (become_leader m)
unfolding become_leader
become_leader-LeadsIn m = ground arith

-- A node with exactly one peer that begins a vote leads at once in the next term, and asks nobody.
pub start_vote-one_peer :
    (m : Member) (peer : Str)
    → m.raft.peers ≡ peer ∷ []
    → ((start_vote m).0 ≡ none) × LeadsIn (m.raft.current_term +ℤ pos 1) (start_vote m).1
unfolding start_vote begin_vote next_term
start_vote-one_peer m peer p =
    subst
      (λ ps.
        ((ask_votes (plan_for ps (next_term m.raft)) (with_raft (next_term m.raft) m)).0 ≡ none)
        × LeadsIn (m.raft.current_term +ℤ pos 1)
            (ask_votes (plan_for ps (next_term m.raft)) (with_raft (next_term m.raft) m)).1)
      (sym p) (refl, become_leader-LeadsIn (with_raft (next_term m.raft) m))

-- The election of two peers, with nothing counted but the own vote.
abbrev two_peers : RequestVoteReq → Campaign
two_peers req = record {
  request = req;
  votes_needed = 2;
  votes_received = 1;
  waiting = 2;
  granted = 0;
  elected = 0;
}

stale-answers :
    (req : RequestVoteReq) (m : Member) (refusal grant : RequestVoteResp)
    → m.raft.is_master ≡ false
    → req.term ≡ m.raft.current_term
    → m.raft.current_term <ℤ refusal.term
    → refusal.vote_granted ≡ false
    → grant.vote_granted ≡ true
    → let c = two_peers req in
      LeadsIn refusal.term (run (answered refusal ∷ answered grant ∷ counted ∷ led ∷ []) (c, m)).1
unfolding run
stale-answers req m refusal grant g h i j k =
    rw (j, k) ground
      (arith, eqb_ℤ_iff req.term m.raft.current_term, eqb_ℤ_iff req.term refusal.term)

asked-two :
    (req : RequestVoteReq) (p q : Str)
    → p ≢ []
    → q ≢ []
    → open_campaign req (p ∷ q ∷ []) ≡ two_peers req
unfolding str_eq
asked-two req [] q m n = absurd (m refl)
asked-two req (x ∷ p) [] m n = absurd (n refl)
asked-two req (x ∷ p) (y ∷ q) m n = refl

-- An election of a node that does not lead and has two peers, both with an address: one peer
-- refuses and answers with a term above the election's, which the node takes over, and the other
-- grants its vote for the election. The vote is counted all the same, and the node leads in the
-- higher term.
pub start_vote-stale_vote :
    (m : Member) (c : Campaign) (p q : Str) (refusal grant : RequestVoteResp)
    → m.raft.is_master ≡ false
    → m.raft.peers ≡ p ∷ q ∷ []
    → p ≢ []
    → q ≢ []
    → (start_vote m).0 ≡ some c
    → m.raft.current_term +ℤ pos 1 <ℤ refusal.term
    → refusal.vote_granted ≡ false
    → grant.vote_granted ≡ true
    → LeadsIn refusal.term
        (run (answered refusal ∷ answered grant ∷ counted ∷ led ∷ []) (c, (start_vote m).1)).1
unfolding next_term vote_request
start_vote-stale_vote m c p q refusal grant l e hp hq o i j k =
    let rs = next_term m.raft in
    let req = vote_request rs in
    let d : c ≡ two_peers req =
      (start_vote-open m c o).0 ∙ ap (open_campaign req) e ∙ asked-two req p q hp hq in
    subst
      (λ s. LeadsIn refusal.term (run (answered refusal ∷ answered grant ∷ counted ∷ led ∷ []) s).1)
      (λ t. (sym d t, sym (start_vote-open m c o).1 t))
      (stale-answers req (with_raft rs m) refusal grant l refl i j k)
