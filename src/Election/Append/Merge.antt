-- ===== src/Election/Append/Merge.antt =====
-- What AppendEntries does to the log (ddbr-server/infra/raft_state_machine.go), against Raft's
-- rule.
use ddbr.Common.{
  ℕ, suc, ◌+◌, ◌-◌, ◌<◌, ◌≡◌, refl, ap, ◌⊎◌, inl, inr, List, [], ◌∷◌, some, arith, length, take,
  drop, drop-get, drop-length, if◌then◌else◌, Bool-cases,
}
use ddbr.Common.Eq.{Str}
use ddbr.Common.Int.{ℤ, pos, two_63, pos-ℤ_one, pos-+ℤ_one, ◌+ℤ◌, ◌-ℤ◌, eqb_ℤ}
use ddbr.Common.Result.{Result, ok, err}
use ddbr.Entry.{LogEntry, IsConsecutive}
use ddbr.Election.Append.{
  UnmarshalEntry, new_entries, Scan, no_conflict, conflict_at, scan, append_rest, merge, with_place,
  place,
}

-- Raft's rule for entries that start at the log's own start: keep what agrees, and from the first
-- disagreement, or the log's end, take the new entries.
unfoldable pub raft_merge : List LogEntry → List LogEntry → List LogEntry
raft_merge logs [] = logs
raft_merge [] (e ∷ es) = e ∷ es
raft_merge (x ∷ logs) (e ∷ es) = if eqb_ℤ x.term e.term then x ∷ raft_merge logs es else e ∷ es

-- The places k, k + 1, … of the log against the new entries, as a scan of what is left of the log.
rest_scan : ℕ → List LogEntry → List LogEntry → Scan
rest_scan k logs [] = no_conflict
rest_scan k [] (e ∷ es) = no_conflict
rest_scan k (x ∷ logs) (e ∷ es) =
    let rest = rest_scan (suc k) logs es in if eqb_ℤ x.term e.term then rest else conflict_at k

scan-drop :
    (k : ℕ) (logs es : List LogEntry)
    → IsConsecutive k es
    → k + length es < two_63
    → scan logs es ≡ rest_scan k (drop k logs) es
unfolding scan rest_scan
scan-drop k logs [] c b = refl
scan-drop k logs (e ∷ es) c b = elim (drop-get k logs) [
  | inl (g, l) ↦
      rw (drop-length k logs l) (rw (c.0, scan, pos-ℤ_one k (omega arith)) (ground arith))
  | inr (x, g, d, l) ↦ rw d (
      ground (
        arith,
        c.0,
        g,
        scan-drop (suc k) logs es c.1 (omega arith),
        pos-ℤ_one k (omega arith),
        ap (λ i. place (i -ℤ pos 1)) c.0,
      ))
]

with_place-index : (t i : ℤ) (s : Str) (r : Result Str LogEntry) → (with_place t i s r).index ≡ i
with_place-index t i s (ok e) = refl
with_place-index t i s (err x) = refl

pub new_entries-IsConsecutive :
    (u : UnmarshalEntry) (t : ℤ) (k : ℕ) (ss : List Str)
    → k + length ss < two_63 - 1
    → IsConsecutive k (new_entries u t (pos (suc k)) ss)
unfolding new_entries
new_entries-IsConsecutive u t k [] b = tt
new_entries-IsConsecutive u t k (s ∷ ss) b = (
  with_place-index t (pos (suc k)) s (u s),
  rw (pos-+ℤ_one (suc k) (omega arith)) (new_entries-IsConsecutive u t (suc k) ss (omega arith)),
)

pub length-new_entries :
    (u : UnmarshalEntry) (t i : ℤ) (ss : List Str) → length (new_entries u t i ss) ≡ length ss
unfolding new_entries
length-new_entries u t i [] = refl
length-new_entries u t i (s ∷ ss) = ap suc (length-new_entries u t (i +ℤ pos 1) ss)

append_rest-cons :
    (x e : LogEntry) (logs es : List LogEntry)
    → append_rest (x ∷ logs) (e ∷ es) ≡ x ∷ append_rest logs es
unfolding append_rest
append_rest-cons x e logs es = ground arith

append_rest-nil : (es : List LogEntry) → append_rest [] es ≡ es
unfolding append_rest
append_rest-nil [] = refl
append_rest-nil (e ∷ es) = ground arith

-- What the scan finds, and Raft's rule in terms of it.
rest_scan-cases :
    (k : ℕ) (logs es : List LogEntry)
    → ((rest_scan k logs es ≡ no_conflict) × (raft_merge logs es ≡ append_rest logs es))
      ⊎ ((i : ℕ) × (rest_scan k logs es ≡ conflict_at (k + i))
          × (raft_merge logs es ≡ append_rest (take i logs) es))
unfolding rest_scan raft_merge append_rest
rest_scan-cases k [] [] = inl (refl, refl)
rest_scan-cases k (x ∷ logs) [] = inl (refl, ground arith)
rest_scan-cases k [] (e ∷ es) = inl (refl, ground arith)
rest_scan-cases k (x ∷ logs) (e ∷ es) = elim (Bool-cases (eqb_ℤ x.term e.term)) [
  | inl t ↦ elim (rest_scan-cases (suc k) logs es) [
    | inl (r, m) ↦ inl (ground (arith, t, r), ground (arith, t, m, append_rest-cons x e logs es))
    | inr (i, r, m) ↦
        inr
          (suc i, ground (arith, t, r), ground (arith, t, m, append_rest-cons x e (take i logs) es))
  ]
  | inr f ↦ inr (0, ground (arith, f), ground (arith, f))
]

pub merge-raft_merge :
    (logs es : List LogEntry)
    → IsConsecutive 0 es
    → length es < two_63
    → merge logs es ≡ some (raft_merge logs es)
unfolding merge
merge-raft_merge logs es c b =
    rw (scan-drop 0 logs es c (omega arith)) (elim (rest_scan-cases 0 logs es) [
      | inl (r, m) ↦ rw (r, m) refl
      | inr (i, r, m) ↦ rw (r, m) (ground arith)
    ])

pub merge-at_end :
    (logs es : List LogEntry)
    → IsConsecutive (length logs) es
    → length logs + length es < two_63
    → merge logs es ≡ some (append_rest logs es)
unfolding merge rest_scan
merge-at_end logs [] c b = refl
merge-at_end logs (e ∷ es) c b =
    rw (scan-drop (length logs) logs (e ∷ es) c b, drop-length (length logs) logs (omega arith))
      refl
