-- ===== src/RaftState/Commit.antt =====
-- UpdateCommitIndex (ddbr-server/infra/raft_state.go): a leader commits what a majority holds.
pub mod Search
pub mod Greatest
use mathlib.Core.Option
use ddbr.Common.{
  ℕ, zero, suc, ◌+◌, ◌/◌, Bool, true, false, not, ◌&&◌, ◌||◌, List, [], ◌∷◌, Option, none, some,
  length, leb, nat_eq, if◌then◌else◌, ◌≡◌, ◌≤◌, ◌<◌, ◌⊎◌, inl, inr, refl, arith,
}
use ddbr.Common.Eq.{Str, int_Eq, ◌==◌}
use ddbr.Common.Int.{ℤ, pos, neg_part, pos_part, ltb_ℤ, ◌+ℤ◌, slice_get, ◌≤ℤ◌, ◌<ℤ◌}
use ddbr.Common.Dict.{Dict}
use ddbr.Entry.{LogEntry}
use ddbr.RaftState.{RaftState, set_commit_index}

-- counts[idx]: 1 for index 0, and one for each peer whose match index is that index.
abbrev matches : ℤ → Dict Str ℤ → ℕ
matches index [] = 0
matches index ((peer, m) ∷ rest) =
    let n = matches index rest in if ltb_ℤ (pos 0) m && m == index then suc n else n

unfoldable pub count_at : ℤ → Dict Str ℤ → ℕ
count_at index match_index =
    let n = matches index match_index in if index == pos 0 then suc n else n

unfoldable pub majority : RaftState → ℕ
majority rs = (length rs.peers + 1) / 2 + 1

abbrev pub of_term : ℤ → LogEntry → Bool
of_term term entry = entry.term == term

-- Whether an index can be committed; `none` is a panic.
abbrev pub test_term : Bool → ℤ → Option LogEntry → Option Bool
test_term false term entry = some false
test_term true term none = none
test_term true term (some entry) = some (of_term term entry)

unfoldable pub can_commit : RaftState → ℤ → Option Bool
unfolding count_at majority
can_commit rs index =
    test_term (leb (majority rs) (count_at index rs.match_index)) rs.current_term
      (slice_get rs.logs index)

-- The loop from `index`, with the index to commit so far.
unfoldable pub search_from : ℕ → RaftState → ℤ → ℤ → Option ℤ
unfolding can_commit
search_from zero rs index best = some best
search_from (suc fuel) rs index best =
    let next = index +ℤ pos 1 in
    let found = search_from fuel rs next index in
    let passed = search_from fuel rs next best in
    if ltb_ℤ index (pos (length rs.logs))
    then elim (can_commit rs index) [ none ↦ none | some b ↦ if b then found else passed ]
    else some best

-- Each round moves the index up by one, so the fuel lasts to the end of the log.
abbrev pub search : RaftState → ℤ → Option ℤ
search rs start = search_from (neg_part start + length rs.logs) rs start rs.commit_index

abbrev pub raise_commit : RaftState → ℤ → ℤ × RaftState
raise_commit rs index =
    if ltb_ℤ rs.commit_index index
    then (index, set_commit_index index rs)
    else (rs.commit_index, rs)

unfoldable pub update_commit_index : RaftState → Option (ℤ × RaftState)
unfolding search_from
update_commit_index rs =
    if not rs.is_master || nat_eq (length rs.logs) 0
    then some (rs.commit_index, rs)
    else Option.map (raise_commit rs) (search rs (rs.commit_index +ℤ pos 1))
