-- ===== src/RaftState/Apply/Range.antt =====
-- Which entries ApplyCommittedLogs hands to the store.
use ddbr.Common.{
  ℕ, zero, suc, ◌+◌, ◌-◌, ◌≤◌, ◌<◌, ◌≡◌, refl, sym, subst, ap, ◌⊎◌, inl, inr, false, List, [], ◌∷◌,
  some, arith, length, take, drop, drop-length, drop-get, take-nil,
}
use ddbr.Common.Int.{pos, two_63, pos-+ℤ_one, ◌<ℤ◌}
use ddbr.Common.Eq.{Str}
use ddbr.Common.Result.{ok, err}
use ddbr.Entry.{LogEntry, IsConsecutive}
use ddbr.Kv.Command.{ApplyError, Unmarshal, says_applied}
use ddbr.Kv.Machine.{StateMachine, apply_log}
use ddbr.RaftState.{RaftState, set_last_applied}
use ddbr.RaftState.Apply.{
  failed, committed_from, committed_entries, apply_entries, apply_committed_logs,
}

within : (i c : ℕ) → (c < i) ⊎ (i ≤ c)
within i c = omega arith

-- The loop's result, with enough fuel.
pub committed_from-take :
    (fuel i c : ℕ) (logs : List LogEntry)
    → length logs < i + fuel
    → length logs < two_63
    → committed_from fuel (pos i) (pos c) logs ≡ some (take (suc c - i) (drop i logs))
unfolding committed_from
committed_from-take zero i c logs f b =
    rw (drop-length i logs (omega arith)) (ap some (sym (take-nil (suc c - i))))
committed_from-take (suc fuel) i c logs f b = elim (drop-get i logs) [
  | inl (g, l) ↦ rw (g, drop-length i logs l, take-nil {A = LogEntry} (suc c - i)) (ground arith)
  | inr (x, g, d, l) ↦ elim (within i c) [
    | inl out ↦
        rw (g, d)
          (ground (
            arith,
            ap (λ n. take n (x ∷ drop (suc i) logs)) (let q : suc c - i ≡ 0 = omega arith in q),
          ))
    | inr in_range ↦
        let q : suc c - i ≡ suc (c - i) = omega arith in
        rw
          (
            g,
            d,
            pos-+ℤ_one i (omega arith),
            committed_from-take fuel (suc i) c logs (omega arith) b,
            q,
          )
          (ground (
            arith,
            ap (λ n. take n (drop (suc i) logs)) (let r : suc c - suc i ≡ c - i = omega arith in r),
          ))
  ]
]

-- The entries handed over are those at the places LastApplied + 1 to CommitIndex of the log, as far
-- as it has them. Neither index is negative, LastApplied is below 2^63 - 1, and the log has fewer
-- than 2^63 entries.
pub committed_entries-take :
    (rs : RaftState) (a c : ℕ)
    → rs.last_applied ≡ pos a
    → rs.commit_index ≡ pos c
    → suc a < two_63
    → length rs.logs < two_63
    → committed_entries rs ≡ some (take (c - a) (drop (suc a) rs.logs))
unfolding committed_entries
committed_entries-take rs a c la ci ba bl =
    rw
      (
        la,
        ci,
        pos-+ℤ_one a ba,
        committed_from-take (suc (length rs.logs)) (suc a) c rs.logs (omega arith) bl,
      )
      (ap (λ n. some (take n (drop (suc a) rs.logs)))
        (let r : suc c - suc a ≡ c - a = omega arith in r))

abbrev pub Above : ℕ → List LogEntry → Type 0
Above n [] = Unit {0}
Above n (e ∷ es) = (pos n <ℤ e.index) × Above n es

Above-take : (k n : ℕ) (es : List LogEntry) → Above n es → Above n (take k es)
Above-take zero n es h = tt
Above-take (suc k) n [] h = tt
Above-take (suc k) n (e ∷ es) h = (h.0, Above-take k n es h.1)

Above-IsConsecutive : (m n : ℕ) (es : List LogEntry) → IsConsecutive n es → m ≤ n → Above m es
Above-IsConsecutive m n [] c h = tt
Above-IsConsecutive m n (e ∷ es) c h =
    (rw c.0 (omega arith), Above-IsConsecutive m (suc n) es c.1 (omega arith))

pub IsConsecutive-drop :
    (k n : ℕ) (es : List LogEntry) → IsConsecutive n es → IsConsecutive (n + k) (drop k es)
IsConsecutive-drop zero n es c = subst (λ m. IsConsecutive m es) (omega arith) c
IsConsecutive-drop (suc k) n [] c = tt
IsConsecutive-drop (suc k) n (e ∷ es) c =
    subst (λ m. IsConsecutive m (drop k es)) (omega arith) (IsConsecutive-drop k (suc n) es c.1)

-- In a log that counts from 1, the committed entry with the index LastApplied + 1 is never among
-- the entries that are handed to the store, nor is any before it: only later ones are. Neither
-- index is negative, LastApplied is below 2^63 - 1, and the log has fewer than 2^63 entries.
pub committed_entries-skips_next :
    (rs : RaftState) (a c : ℕ)
    → IsConsecutive 0 rs.logs
    → rs.last_applied ≡ pos a
    → rs.commit_index ≡ pos c
    → suc a < two_63
    → length rs.logs < two_63
    → (es : List LogEntry) × (committed_entries rs ≡ some es) × Above (suc a) es
committed_entries-skips_next rs a c k la ci ba bl = (
  take (c - a) (drop (suc a) rs.logs),
  committed_entries-take rs a c la ci ba bl,
  Above-take (c - a) (suc a) (drop (suc a) rs.logs) (
      Above-IsConsecutive (suc a) (0 + suc a) (drop (suc a) rs.logs)
        (IsConsecutive-drop (suc a) 0 rs.logs k) (omega arith)),
)

-- ApplyCommittedLogs applies the entries that it collected.
pub apply_committed_logs-some :
    (u : Unmarshal) (rs : RaftState) (sm : StateMachine) (es : List LogEntry)
    → rs.last_applied <ℤ rs.commit_index
    → committed_entries rs ≡ some es
    → apply_committed_logs u (rs, sm) ≡ apply_entries u es (rs, sm)
unfolding apply_committed_logs
apply_committed_logs-some u rs sm es l e = rw (e, apply_committed_logs) (ground arith)

pub apply_entries-one :
    (u : Unmarshal) (e : LogEntry) (rs : RaftState) (sm : StateMachine) {r : Str}
    → (apply_log u e sm).0 ≡ ok r
    → apply_entries u (e ∷ []) (rs, sm)
      ≡ (ok tt, (set_last_applied e.index rs, (apply_log u e sm).1))
unfolding apply_entries
apply_entries-one u e rs sm h = ground arith

-- An entry that is refused for a reason of its own ends the loop, before it counts as applied.
pub apply_entries-refused :
    (u : Unmarshal) (e : LogEntry) (es : List LogEntry) (rs : RaftState) (sm : StateMachine)
    (x : ApplyError)
    → apply_log u e sm ≡ (err x, sm)
    → says_applied x ≡ false
    → apply_entries u (e ∷ es) (rs, sm) ≡ (err (failed x), (rs, sm))
unfolding apply_entries
apply_entries-refused u e es rs sm x h f = rw (h, apply_entries) (rw f refl)
