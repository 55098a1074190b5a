-- ===== src/RaftState/Commit/Greatest.antt =====
-- Which index UpdateCommitIndex commits (ddbr-server/infra/raft_state.go).
use ddbr.Common.{
  ℕ, suc, ◌+◌, true, false, not, ◌||◌, List, some, length, get_elem?, drop-get, nat_eq, Bool-cases,
  ◌≡◌, ◌≤◌, ◌<◌, ◌⊎◌, inl, inr, refl, sym, ap, ◌∙◌, arith,
}
use ddbr.Common.Int.{ℤ, pos, neg_part, ltb_ℤ, ◌+ℤ◌, two_63, pos-+ℤ_one}
use ddbr.Entry.{LogEntry}
use ddbr.RaftState.{RaftState, set_commit_index}
use ddbr.RaftState.Commit.{search_from, update_commit_index, search, raise_commit}
use ddbr.RaftState.Commit.Search.{
  IsCommittable, search_from-IsGreatest, can_commit-IsCommittable, IsCommittable-can_commit,
  le-cases,
}

get_elem?-lt : (es : List LogEntry) (i : ℕ) {e : LogEntry} → get_elem? es i ≡ some e → i < length es
get_elem?-lt es i h = elim (drop-get i es) [
  | inl (g, l) ↦ absurd (ground (arith, h, g))
  | inr (e, g, d, l) ↦ l
]

set_commit_index_same : (rs : RaftState) (c : ℤ) → rs.commit_index ≡ c → set_commit_index c rs ≡ rs
set_commit_index_same rs c e = ap (λ x. set_commit_index x rs) (sym e)

raise_commit_lem :
    (rs : RaftState) (k r : ℕ)
    → rs.commit_index ≡ pos k
    → k ≤ r
    → raise_commit rs (pos r) ≡ (pos r, set_commit_index (pos r) rs)
raise_commit_lem rs k r c l = elim (le-cases k r l) [
  | inl e ↦
      let b : ltb_ℤ rs.commit_index (pos r) ≡ false = ground (arith, c, e) in
      let q : rs.commit_index ≡ pos r = c ∙ ap pos e in
      rw b (λ i. (q i, sym (set_commit_index_same rs (pos r) q) i))
  | inr s ↦ let b : ltb_ℤ rs.commit_index (pos r) ≡ true = ground (arith, c, s) in rw b refl
]

search_lem :
    (rs : RaftState) (k : ℕ)
    → rs.commit_index ≡ pos k
    → suc k < two_63
    → search rs (rs.commit_index +ℤ pos 1)
      ≡ search_from (0 + length rs.logs) rs (pos (suc k)) (pos k)
search_lem rs k c h =
    let q : rs.commit_index +ℤ pos 1 ≡ pos (suc k) = ap (λ x. x +ℤ pos 1) c ∙ pos-+ℤ_one k h in
    (λ i. search_from (neg_part (q i) + length rs.logs) rs (q i) (c i))

update_commit_index-search :
    (rs : RaftState) (k r : ℕ)
    → rs.is_master ≡ true
    → rs.commit_index ≡ pos k
    → search rs (rs.commit_index +ℤ pos 1) ≡ some (pos r)
    → k ≤ r
    → (length rs.logs ≡ 0 → r ≡ k)
    → update_commit_index rs ≡ some (pos r, set_commit_index (pos r) rs)
unfolding update_commit_index
update_commit_index-search rs k r m c s l z = elim (Bool-cases (nat_eq (length rs.logs) 0)) [
  | inl e ↦
      let q : rs.commit_index ≡ pos r = c ∙ ap pos (sym (z (ground (arith, e)))) in
      let b : (not rs.is_master || nat_eq (length rs.logs) 0) ≡ true = ground (arith, m, e) in
      rw b (λ i. some (q i, sym (set_commit_index_same rs (pos r) q) i))
  | inr e ↦
      let b : (not rs.is_master || nat_eq (length rs.logs) 0) ≡ false = ground (arith, m, e) in
      rw (b, s) (ap some (raise_commit_lem rs k r c l))
]

-- The commit index goes from `k` to `r`: the greatest index above `k` that can be committed, or `k`
-- where there is none.
pub record Commits (rs : RaftState) (k r : ℕ) : Type 0 where
  pub result : update_commit_index rs ≡ some (pos r, set_commit_index (pos r) rs)
  pub is_found : (r ≡ k) ⊎ ((k < r) × IsCommittable rs r)
  pub is_greatest : (j : ℕ) → k < j → IsCommittable rs j → j ≤ r

-- UpdateCommitIndex of a leader with a log shorter than 2^63 and a commit index that is not
-- negative and below 2^63 - 1 never panics. It raises the commit index to the greatest index above
-- it such that the entry at this place of the slice, counted from 0, is of the current term, and
-- the peers whose match index is exactly this one are more than half of all nodes; where there is
-- none, it keeps the commit index.
pub update_commit_index-Commits :
    (rs : RaftState) (k : ℕ)
    → rs.is_master ≡ true
    → rs.commit_index ≡ pos k
    → length rs.logs < two_63
    → suc k < two_63
    → (r : ℕ) × Commits rs k r
update_commit_index-Commits rs k m c l h =
    let (r, e, g) =
      search_from-IsGreatest (0 + length rs.logs) rs (suc k) k (omega arith) l (omega arith) in
    (
      r,
      record {
        result =
            update_commit_index-search rs k r m c (search_lem rs k c h ∙ e) g.is_above
              (ground (arith, g.is_found));
        is_found = elim g.is_found [
          | inl q ↦ inl q
          | inr (a, b, d) ↦ inr (a, can_commit-IsCommittable rs r (omega (arith, a)) d)
        ];
        is_greatest = λ j a d.
            g.is_greatest j a (get_elem?-lt rs.logs j d.is_entry)
              (IsCommittable-can_commit rs j (omega (arith, a)) d);
      },
    )
