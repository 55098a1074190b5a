-- ===== src/RaftState/Log/Append.antt =====
-- AppendLog keeps the log's indices in step with their places.
use ddbr.Common.{
  ℕ, zero, suc, ◌+◌, ◌≤◌, ◌<◌, ◌≡◌, refl, ap, ◌∙◌, inl, inr, Bool-cases, true, List, [], ◌∷◌, ◌++◌,
  Option, none, some, arith, length, take, length-take, get_elem?, get_last?, if◌then◌else◌, ◌⊎◌,
}
use ddbr.Common.Int.{ℤ, pos, negsuc, two_63, pos_part, ltb_ℤ, eqb_ℤ, pos-+ℤ, ◌≤ℤ◌}
use ddbr.Entry.{
  LogEntry, IsConsecutive, IsConsecutive-append, IsConsecutive-take, last_index, last_index-length,
}
use ddbr.RaftState.{RaftState}
use ddbr.RaftState.Log.{
  Check, clear, conflict_at, duplicate, find_conflict, append_checked, append_to, append_log,
  adjust_index, next_of,
}

-- Past the end of a consecutive log there is nothing to conflict with.
find_conflict-clear :
    (i n m : ℕ) (log : List LogEntry) (e : LogEntry)
    → IsConsecutive n log
    → e.index ≡ pos m
    → n + length log < m
    → find_conflict i log e ≡ clear
unfolding find_conflict
find_conflict-clear i n m [] e c h l = refl
find_conflict-clear i n m (x ∷ log) e c h l =
    ground (arith, find_conflict-clear (suc i) (suc n) m log e c.1 h)

-- The outcome at a place inside the log.
abbrev pub outcome : ℕ → Option LogEntry → LogEntry → Check
outcome i none e = clear
outcome i (some x) e = if eqb_ℤ x.term e.term then duplicate else conflict_at i

find_conflict-outcome :
    (i n k : ℕ) (log : List LogEntry) (e : LogEntry)
    → IsConsecutive n log
    → e.index ≡ pos (suc n + k)
    → find_conflict i log e ≡ outcome (i + k) (get_elem? log k) e
unfolding find_conflict
find_conflict-outcome i n k [] e c h = refl
find_conflict-outcome i n zero (x ∷ log) e c h = ground arith
find_conflict-outcome i n (suc k) (x ∷ log) e c h = ground (
  arith,
  find_conflict-outcome (suc i) (suc n) k log e c.1 (h ∙ ap pos (omega arith)),
  ap pos_part h,
  ap pos_part c.0,
  ap (λ j. outcome j (get_elem? log k) e) (let q : i + suc k ≡ suc i + k = omega arith in q),
)

get_elem?-some :
    (k : ℕ) (xs : List LogEntry) → k < length xs → (x : LogEntry) × (get_elem? xs k ≡ some x)
get_elem?-some k [] h = elim h [ ]
get_elem?-some zero (x ∷ xs) h = (x, refl)
get_elem?-some (suc k) (x ∷ xs) h = get_elem?-some k xs (omega arith)

-- An entry with the next index goes to the end.
append_to-next :
    (logs : List LogEntry) (e : LogEntry)
    → IsConsecutive 0 logs
    → e.index ≡ pos (suc (length logs))
    → append_to logs e ≡ logs ++ e ∷ []
unfolding append_to
append_to-next logs e c h =
    ap (append_checked logs e)
      (find_conflict-clear 0 0 (suc (length logs)) logs e c h (omega arith))

-- An entry with the index of one that is there.
append_to-inside :
    (logs : List LogEntry) (e : LogEntry) (k : ℕ) (x : LogEntry)
    → IsConsecutive 0 logs
    → e.index ≡ pos (suc k)
    → get_elem? logs k ≡ some x
    → append_to logs e ≡ (if eqb_ℤ x.term e.term then logs else take k logs ++ e ∷ [])
unfolding append_to
append_to-inside logs e k x c h g = ground (
  arith,
  find_conflict-outcome 0 0 k logs e c (h ∙ ap pos (omega arith)),
  g,
  ap (λ j. outcome j (get_elem? logs k) e) (let q : 0 + k ≡ k = omega arith in q),
)

take-IsConsecutive :
    (logs : List LogEntry) (e : LogEntry) (k : ℕ)
    → IsConsecutive 0 logs
    → e.index ≡ pos (suc k)
    → k ≤ length logs
    → IsConsecutive 0 (take k logs ++ e ∷ [])
take-IsConsecutive logs e k c h l =
    IsConsecutive-append 0 (take k logs) (e ∷ []) (IsConsecutive-take k 0 logs c)
      (h ∙ ap pos (omega (arith, length-take k logs)), tt)

at_end : (k n : ℕ) → k ≤ n → (k ≡ n) ⊎ (k < n)
at_end k n l = omega arith

append_to-IsConsecutive :
    (logs : List LogEntry) (e : LogEntry) (k : ℕ)
    → IsConsecutive 0 logs
    → e.index ≡ pos (suc k)
    → k ≤ length logs
    → IsConsecutive 0 (append_to logs e)
append_to-IsConsecutive logs e k c h l = elim (at_end k (length logs) l) [
  | inl end ↦
      rw (append_to-next logs e c (h ∙ ap (λ j. pos (suc j)) end))
        (IsConsecutive-append 0 logs (e ∷ []) c (h ∙ ap pos (omega arith), tt))
  | inr inside ↦
      let (x, g) = get_elem?-some k logs inside in
      rw (append_to-inside logs e k x c h g) (elim (Bool-cases (eqb_ℤ x.term e.term)) [
        | inl same ↦ rw same c
        | inr other ↦ rw other (take-IsConsecutive logs e k c h l)
      ])
]

get_last?-some :
    (x : LogEntry) (xs : List LogEntry) → (y : LogEntry) × (get_last? (x ∷ xs) ≡ some y)
get_last?-some x [] = (x, refl)
get_last?-some x (y ∷ xs) = get_last?-some y xs

next_of-length :
    (logs : List LogEntry)
    → IsConsecutive 0 logs
    → suc (length logs) < two_63
    → next_of (get_last? logs) ≡ pos (suc (length logs))
unfolding last_index
next_of-length [] c b = refl
next_of-length (x ∷ xs) c b =
    let (y, g) = get_last?-some x xs in
    let i = last_index-length (x ∷ xs) c in
    rw g (rw (rw g at i) (pos-+ℤ (suc (length xs)) 1 (omega arith) ∙ ap pos (omega arith)))

adjust_index_valid :
    (logs : List LogEntry) (e : LogEntry) (k : ℕ) → e.index ≡ pos (suc k) → adjust_index logs e ≡ e
unfolding adjust_index
adjust_index_valid logs e k h = ground arith

index-cases : (i : ℤ) → (ltb_ℤ i (pos 1) ≡ true) ⊎ ((k : ℕ) × (i ≡ pos (suc k)))
index-cases (negsuc n) = inl (ground arith)
index-cases (pos zero) = inl refl
index-cases (pos (suc k)) = inr (k, refl)

adjust_index-pos :
    (logs : List LogEntry) (e : LogEntry)
    → IsConsecutive 0 logs
    → suc (length logs) < two_63
    → e.index ≤ℤ pos (suc (length logs))
    → (k : ℕ) × ((adjust_index logs e).index ≡ pos (suc k)) × (k ≤ length logs)
unfolding adjust_index
adjust_index-pos logs e c b h = elim (index-cases e.index) [
  | inl low ↦ (length logs, rw low (next_of-length logs c b), omega arith)
  | inr (k, i) ↦
      (k, ap (λ (x : LogEntry). x.index) (adjust_index_valid logs e k i) ∙ i, ground arith)
]

-- AppendLog keeps the indices 1, 2, 3, … of the log, for an entry at most one past the end: whether
-- the entry is appended, replaces a conflicting suffix, is ignored, or had no valid index. The log
-- has fewer than 2^63 - 1 entries.
pub append_log-IsConsecutive :
    (rs : RaftState) (e : LogEntry)
    → IsConsecutive 0 rs.logs
    → suc (length rs.logs) < two_63
    → e.index ≤ℤ pos (suc (length rs.logs))
    → IsConsecutive 0 (append_log rs e).0.logs
unfolding append_log
append_log-IsConsecutive rs e c b h =
    let (k, i, l) = adjust_index-pos rs.logs e c b h in
    append_to-IsConsecutive rs.logs (adjust_index rs.logs e) k c i l

-- What AppendLog does to a consecutive log with an entry at a place that is taken: nothing if the
-- terms agree, else the log is cut there and the entry is put in its place.
pub append_log-inside :
    (rs : RaftState) (e : LogEntry) (k : ℕ) (x : LogEntry)
    → IsConsecutive 0 rs.logs
    → e.index ≡ pos (suc k)
    → get_elem? rs.logs k ≡ some x
    → (append_log rs e).0.logs ≡ (if eqb_ℤ x.term e.term then rs.logs else take k rs.logs ++ e ∷ [])
unfolding append_log
append_log-inside rs e k x c h g =
    rw (adjust_index_valid rs.logs e k h) (append_to-inside rs.logs e k x c h g)

-- An entry with the next index goes to the end as it is.
pub append_log-next :
    (rs : RaftState) (e : LogEntry)
    → IsConsecutive 0 rs.logs
    → e.index ≡ pos (suc (length rs.logs))
    → append_log rs e ≡ (record rs { logs = rs.logs ++ e ∷ [] }, e)
unfolding append_log
append_log-next rs e c h =
    rw (adjust_index_valid rs.logs e (length rs.logs) h, append_to-next rs.logs e c h)
