-- ===== src/RaftState/Commit/Search.antt =====
-- The search of UpdateCommitIndex for an index to commit (ddbr-server/infra/raft_state.go).
use ddbr.Common.{
  ℕ, zero, suc, ◌+◌, ◌*◌, ltb, nat_eq, [], ◌∷◌, if◌then◌else◌, Bool, true, false, Option, none,
  some, length, get_elem?, leb, drop-get, ◌≡◌, ◌≤◌, ◌<◌, ◌⊎◌, inl, inr, refl, ap, ◌∙◌, arith,
}
use ddbr.Common.Int.{ℤ, pos, negsuc, ltb_ℤ, eqb_ℤ_iff, two_63, pos-+ℤ_one}
use ddbr.Common.Eq.{Str, int_Eq}
use ddbr.Common.Dict.{Dict}
use ddbr.Entry.{LogEntry}
use ddbr.RaftState.{RaftState}
use ddbr.RaftState.Commit.{count_at, majority, test_term, of_term, can_commit, search_from}

-- The peers whose match index is exactly `i`.
abbrev pub holders : ℕ → Dict Str ℤ → ℕ
holders i [] = 0
holders i ((peer, pos m) ∷ rest) = let n = holders i rest in if nat_eq m i then suc n else n
holders i ((peer, negsuc m) ∷ rest) = holders i rest

-- These are more than half of all nodes, the peers and the leader, and the entry at the place `i`
-- of the slice, which counts from 0, is of the current term.
pub record IsCommittable (rs : RaftState) (i : ℕ) : Type 0 where
  pub is_counted : length rs.peers + 1 < 2 * holders i rs.match_index
  pub entry : LogEntry
  pub is_entry : get_elem? rs.logs i ≡ some entry
  pub has_term : entry.term ≡ rs.current_term

count_at-holders : (i : ℕ) (m : Dict Str ℤ) → 0 < i → count_at (pos i) m ≡ holders i m
unfolding count_at
count_at-holders i [] l = ground (arith, l)
count_at-holders i ((peer, pos n) ∷ m) l = ground (arith, l, count_at-holders i m l)
count_at-holders i ((peer, negsuc n) ∷ m) l = ground (arith, l, count_at-holders i m l)

leb-majority :
    (rs : RaftState) (i : ℕ)
    → 0 < i
    → leb (majority rs) (count_at (pos i) rs.match_index)
      ≡ ltb (length rs.peers + 1) (2 * holders i rs.match_index)
unfolding majority
leb-majority rs i l = ground (arith, count_at-holders i rs.match_index l)

-- The greatest index to commit from `i` on, or `best` where there is none.
pub record IsGreatest (rs : RaftState) (i best r : ℕ) : Type 0 where
  pub is_found : (r ≡ best) ⊎ ((i ≤ r) × (r < length rs.logs) × (can_commit rs (pos r) ≡ some true))
  pub is_above : best ≤ r
  pub is_greatest : (j : ℕ) → i ≤ j → j < length rs.logs → can_commit rs (pos j) ≡ some true → j ≤ r

test_term-cases : (b : Bool) (t : ℤ) (e : LogEntry) → (c : Bool) × (test_term b t (some e) ≡ some c)
test_term-cases true t e = (of_term t e, refl)
test_term-cases false t e = (false, refl)

can_commit-cases :
    (rs : RaftState) (i : ℕ) → i < length rs.logs → (b : Bool) × (can_commit rs (pos i) ≡ some b)
unfolding can_commit
can_commit-cases rs i l = elim (drop-get i rs.logs) [
  | inl (g, k) ↦ absurd (omega (arith, l, k))
  | inr (e, g, d, k) ↦
      let (c, q) =
        test_term-cases (leb (majority rs) (count_at (pos i) rs.match_index)) rs.current_term e in
      (
        c,
        ap (test_term (leb (majority rs) (count_at (pos i) rs.match_index)) rs.current_term) g ∙ q,
      )
]

-- One round of the loop.
search_from-passed :
    (fuel : ℕ) (rs : RaftState) (i best : ℕ)
    → i < length rs.logs
    → can_commit rs (pos i) ≡ some false
    → suc i < two_63
    → search_from (suc fuel) rs (pos i) (pos best) ≡ search_from fuel rs (pos (suc i)) (pos best)
unfolding search_from
search_from-passed fuel rs i best l c h =
    let lt : ltb_ℤ (pos i) (pos (length rs.logs)) ≡ true = ground (arith, l) in
    rw (lt, c, pos-+ℤ_one i h) refl

search_from-found :
    (fuel : ℕ) (rs : RaftState) (i best : ℕ)
    → i < length rs.logs
    → can_commit rs (pos i) ≡ some true
    → suc i < two_63
    → search_from (suc fuel) rs (pos i) (pos best) ≡ search_from fuel rs (pos (suc i)) (pos i)
unfolding search_from
search_from-found fuel rs i best l c h =
    let lt : ltb_ℤ (pos i) (pos (length rs.logs)) ≡ true = ground (arith, l) in
    rw (lt, c, pos-+ℤ_one i h) refl

pub le-cases : (m n : ℕ) → m ≤ n → (m ≡ n) ⊎ (suc m ≤ n)
le-cases m n h = ground arith

-- The search of one index more.
IsGreatest-passed :
    (rs : RaftState) (i best r : ℕ)
    → can_commit rs (pos i) ≡ some false
    → IsGreatest rs (suc i) best r
    → IsGreatest rs i best r
IsGreatest-passed rs i best r c g = record {
  is_found = ground (arith, g.is_found);
  is_above = g.is_above;
  is_greatest = λ j a l d. elim (le-cases i j a) [
    | inl e ↦ absurd (ground (arith, c, d, e))
    | inr k ↦ g.is_greatest j k l d
  ];
}

IsGreatest-found :
    (rs : RaftState) (i best r : ℕ)
    → can_commit rs (pos i) ≡ some true
    → i < length rs.logs
    → best < i
    → IsGreatest rs (suc i) i r
    → IsGreatest rs i best r
IsGreatest-found rs i best r c k b g = record {
  is_found = inr (ground (arith, g.is_found, g.is_above, c, k));
  is_above = omega (arith, g.is_above, b);
  is_greatest = λ j a l d. elim (le-cases i j a) [
    | inl e ↦ omega (arith, g.is_above, e)
    | inr s ↦ g.is_greatest j s l d
  ];
}

abbrev pub Found : ℕ → RaftState → ℕ → ℕ → Type 0
Found fuel rs i best =
    (r : ℕ) × (search_from fuel rs (pos i) (pos best) ≡ some (pos r)) × IsGreatest rs i best r

search_from-end :
    (fuel : ℕ) (rs : RaftState) (i best : ℕ) → length rs.logs ≤ i → best < i → Found fuel rs i best
unfolding search_from
search_from-end fuel rs i best e b = (
  best,
  stops fuel,
  record {
    is_found = inl refl;
    is_above = omega arith;
    is_greatest = λ j a c d. absurd (omega (arith, a, c, e));
  },
)
  where
    stops : (n : ℕ) → search_from n rs (pos i) (pos best) ≡ some (pos best)
    stops zero = refl
    stops (suc n) =
        let lt : ltb_ℤ (pos i) (pos (length rs.logs)) ≡ false = ground (arith, e) in rw lt refl

search_from-round :
    (fuel : ℕ) (rs : RaftState) (i best : ℕ) (c : Bool)
    → can_commit rs (pos i) ≡ some c
    → i < length rs.logs
    → suc i < two_63
    → best < i
    → ((b : ℕ) → b < suc i → Found fuel rs (suc i) b)
    → Found (suc fuel) rs i best
search_from-round fuel rs i best true q k l b ih =
    let (r, e, g) = ih i (omega arith) in
    (r, search_from-found fuel rs i best k q l ∙ e, IsGreatest-found rs i best r q k b g)
search_from-round fuel rs i best false q k l b ih =
    let (r, e, g) = ih best (omega (arith, b)) in
    (r, search_from-passed fuel rs i best k q l ∙ e, IsGreatest-passed rs i best r q g)

end-cases : (m n : ℕ) → (n ≤ m) ⊎ (m < n)
end-cases m n = ground arith

pub search_from-IsGreatest :
    (fuel : ℕ) (rs : RaftState) (i best : ℕ)
    → length rs.logs ≤ i + fuel
    → length rs.logs < two_63
    → best < i
    → Found fuel rs i best
search_from-IsGreatest zero rs i best f l b = search_from-end zero rs i best (omega (arith, f)) b
search_from-IsGreatest (suc fuel) rs i best f l b = elim (end-cases i (length rs.logs)) [
  | inl e ↦ search_from-end (suc fuel) rs i best e b
  | inr k ↦
      let (c, q) = can_commit-cases rs i k in
      search_from-round fuel rs i best c q k (omega (arith, k, l)) b
        (λ x y. search_from-IsGreatest fuel rs (suc i) x (omega (arith, f)) l y)
]

test_term-true :
    (b : Bool) (t : ℤ) (o : Option LogEntry)
    → test_term b t o ≡ some true
    → (b ≡ true) × (e : LogEntry) × (o ≡ some e) × (e.term ≡ t)
test_term-true true t none h = absurd (ground arith)
test_term-true true t (some e) h = (refl, e, refl, ground (arith, h, eqb_ℤ_iff e.term t))
test_term-true false t o h = absurd (ground arith)

pub can_commit-IsCommittable :
    (rs : RaftState) (i : ℕ) → 0 < i → can_commit rs (pos i) ≡ some true → IsCommittable rs i
unfolding can_commit
can_commit-IsCommittable rs i l h =
    let (b, e, g, t) =
      test_term-true (leb (majority rs) (count_at (pos i) rs.match_index)) rs.current_term
        (get_elem? rs.logs i) h in
    record {
      is_counted = ground (arith, b, leb-majority rs i l);
      entry = e;
      is_entry = g;
      has_term = t;
    }

pub IsCommittable-can_commit :
    (rs : RaftState) (i : ℕ) → 0 < i → IsCommittable rs i → can_commit rs (pos i) ≡ some true
unfolding can_commit
IsCommittable-can_commit rs i l h =
    let b : leb (majority rs) (count_at (pos i) rs.match_index) ≡ true =
      leb-majority rs i l ∙ ground (arith, h.is_counted) in
    let t : of_term rs.current_term h.entry ≡ true = ground (arith, h.has_term) in
    rw (b, h.is_entry) (ap some t)
