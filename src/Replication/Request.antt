-- ===== src/Replication/Request.antt =====
-- What the requests of ddbr-server/infra/replication.go carry, for a log that counts from 1.
use ddbr.Common.{
  ℕ, zero, suc, ◌+◌, ◌-◌, ◌≤◌, ◌<◌, ◌≡◌, refl, ap, inl, inr, List, [], ◌∷◌, some, arith, length,
  take, drop, get_elem?, get_last?, drop-get,
}
use ddbr.Common.Int.{pos, two_63, pos-+ℤ_one, pos-ℤ_one}
use ddbr.Entry.{LogEntry, last_term}
use ddbr.RaftState.{RaftState}
use ddbr.Replication.{
  entries_from, rounds, term_at, pre_commit_request, convert_log_entries_to_strings,
}

-- The entries with the indices k + 1 to k + n.
entries_from-take :
    (n k : ℕ) (logs : List LogEntry)
    → k + n ≤ length logs
    → suc (length logs) < two_63
    → entries_from n (pos (suc k)) logs ≡ take n (drop k logs)
unfolding entries_from
entries_from-take zero k logs l b = refl
entries_from-take (suc n) k logs l b = elim (drop-get k logs) [
  | inl (g, short) ↦ absurd (omega arith)
  | inr (x, g, d, _) ↦ rw (
    pos-ℤ_one k (omega arith),
    entries_from,
    g,
    pos-+ℤ_one (suc k) (omega arith),
    entries_from-take n (suc k) logs (omega arith) b,
    d,
  )
]

get_last?-take :
    (k : ℕ) (logs : List LogEntry) (x : LogEntry)
    → get_elem? logs k ≡ some x
    → get_last? (take (suc k) logs) ≡ some x
get_last?-take k [] x g = absurd (ground arith)
get_last?-take zero (y ∷ logs) x g = g
get_last?-take (suc k) (y ∷ []) x g = absurd (ground arith)
get_last?-take (suc k) (y ∷ z ∷ logs) x g = get_last?-take k (z ∷ logs) x g

-- The term before the entries of a request.
pub term_at-take :
    (k : ℕ) (logs : List LogEntry)
    → k ≤ length logs
    → suc k < two_63
    → term_at (pos 0) (pos k) logs ≡ last_term (take k logs)
unfolding term_at last_term
term_at-take zero logs l b = refl
term_at-take (suc k) logs l b = elim (drop-get k logs) [
  | inl (g, short) ↦ absurd (omega arith)
  | inr (x, g, d, _) ↦ rw (pos-ℤ_one k (omega arith), g, get_last?-take k logs x g) (ground arith)
]

rounds-pos : (k i : ℕ) → k < i → rounds (pos (suc k)) (pos i) ≡ i - k
rounds-pos k i l = ground arith

-- The pre-commit request for a peer whose next index is k + 1, at most the new entry's index, names
-- the k-th entry of the leader's log by its index and term, and carries the commands of all entries
-- after it up to the new one. The log has fewer than 2^63 - 1 entries, the new one among them.
pub pre_commit_request-segment :
    (rs : RaftState) (entry : LogEntry) (k i : ℕ)
    → entry.index ≡ pos i
    → k < i
    → i ≤ length rs.logs
    → suc (length rs.logs) < two_63
    → let req = pre_commit_request rs (pos (suc k)) entry in
      (req.prev_log_index ≡ pos k)
      × (req.prev_log_term ≡ last_term (take k rs.logs))
      × (req.entries ≡ convert_log_entries_to_strings (take (i - k) (drop k rs.logs)))
unfolding pre_commit_request
pre_commit_request-segment rs entry k i e l m b = (
  pos-ℤ_one k (omega arith),
  rw (pos-ℤ_one k (omega arith)) (term_at-take k rs.logs (omega arith) (omega arith)),
  ap convert_log_entries_to_strings
      (rw (e, rounds-pos k i l) (entries_from-take (i - k) k rs.logs (omega arith) b)),
)
