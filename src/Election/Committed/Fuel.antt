-- ===== src/Election/Committed/Fuel.antt =====
-- The loop of applyCommittedLogs ends by its own test (ddbr-server/infra/raft_state_machine.go).
use ddbr.Common.{
  ℕ, zero, suc, ◌+◌, ◌≤◌, ◌<◌, ◌≡◌, refl, sym, ap, ◌∙◌, ◌⊎◌, inl, inr, Bool, false, ◌&&◌, length,
  arith, if◌then◌else◌, Bool-cases, Option-cases,
}
use ddbr.Common.Int.{pos, two_63, leb_ℤ, ltb_ℤ, ◌+ℤ◌, ◌-ℤ◌, slice_get, pos-ℤ_one, pos-+ℤ_one}
use ddbr.Common.Result.{Result, ok, err}
use ddbr.Kv.Command.{ApplyError, Unmarshal}
use ddbr.Kv.Machine.{StateMachine}
use ddbr.RaftState.Apply.{Fault}
use ddbr.Election.{RaftStateMachine}
use ddbr.Election.Committed.{Both, goes, apply_entry, apply_from, apply_committed}
use ddbr.Election.Committed.Keeps.{Kept, apply_entry-Kept}

abbrev pub Done : Type 0
Done = Result Fault (Unit {0}) × Both

-- Two rests of the loop that agree on states with this log agree after a round.
goes-same :
    (k k' : Both → Done) (sm : RaftStateMachine) (kv : StateMachine) (r : Result ApplyError Both)
    → Kept sm r
    → ((t : Both) → t.0.logs ≡ sm.logs → k t ≡ k' t)
    → goes k (sm, kv) r ≡ goes k' (sm, kv) r
goes-same k k' sm kv (err x) h same = refl
goes-same k k' sm kv (ok t) (a, e) same = same t (ap (λ (x : RaftStateMachine). x.logs) e)

-- The loop's test, at the place `k`
abbrev test : ℕ → RaftStateMachine → Bool
test k sm =
    leb_ℤ (pos (suc k)) sm.commit_index && ltb_ℤ (pos (suc k) -ℤ pos 1) (pos (length sm.logs))

apply_from-past :
    (u : Unmarshal) (fuel k : ℕ) (sm : RaftStateMachine) (kv : StateMachine)
    → length sm.logs ≤ k
    → suc k < two_63
    → apply_from u fuel (pos (suc k)) (sm, kv) ≡ (ok tt, (sm, kv))
unfolding apply_from
apply_from-past u zero k sm kv l b = refl
apply_from-past u (suc fuel) k sm kv l b =
    let off : test k sm ≡ false = rw (pos-ℤ_one k b) (ground (arith, l)) in rw off refl

place_cases : (k n : ℕ) → (n ≤ k) ⊎ (k < n)
place_cases k n = ground arith

apply_from-same :
    (u : Unmarshal) (m n k : ℕ) (sm : RaftStateMachine) (kv : StateMachine)
    → length sm.logs ≤ k + m
    → length sm.logs ≤ k + n
    → suc (length sm.logs) < two_63
    → suc k < two_63
    → apply_from u m (pos (suc k)) (sm, kv) ≡ apply_from u n (pos (suc k)) (sm, kv)
unfolding apply_from
apply_from-same u zero n k sm kv a b l h = sym (apply_from-past u n k sm kv (omega (arith, a)) h)
apply_from-same u (suc m) zero k sm kv a b l h =
    apply_from-past u (suc m) k sm kv (omega (arith, b)) h
apply_from-same u (suc m) (suc n) k sm kv a b l h = elim (place_cases k (length sm.logs)) [
  | inl past ↦
      apply_from-past u (suc m) k sm kv past h ∙ sym (apply_from-past u (suc n) k sm kv past h)
  | inr inside ↦
      let next_index = pos-+ℤ_one (suc k) (omega (arith, inside, l)) in
      let next : (t : Both)
          → t.0.logs ≡ sm.logs
          → apply_from u m (pos (suc k) +ℤ pos 1) t ≡ apply_from u n (pos (suc k) +ℤ pos 1) t =
        λ t q.
          let len : length t.0.logs ≡ length sm.logs = ap length q in
          ap (λ i. apply_from u m i t) next_index
          ∙ apply_from-same u m n (suc k) t.0 t.1 (omega (arith, a, len)) (omega (arith, b, len))
              (omega (arith, l, len)) (omega (arith, inside, l))
          ∙ ap (λ i. apply_from u n i t) (sym next_index) in
      elim (Bool-cases (test k sm)) [
        | inr off ↦ rw off refl
        | inl on ↦ elim (Option-cases (slice_get sm.logs (pos (suc k) -ℤ pos 1))) [
          | inl o ↦ rw (on, o) refl
          | inr (x, o) ↦
              rw (on, o)
                (goes-same (apply_from u m (pos (suc k) +ℤ pos 1))
                  (apply_from u n (pos (suc k) +ℤ pos 1)) sm kv (apply_entry u x (sm, kv))
                  (apply_entry-Kept u x (sm, kv)) next)
        ]
      ]
]

-- Of a machine whose last applied index is no negative number and below 2^63 - 2, with a log
-- shorter than 2^63 - 1 entries: the loop of applyCommittedLogs gives the same result with every
-- fuel that is at least the log's length, so it ends by its own test.
pub apply_committed_fuel :
    (u : Unmarshal) (n a : ℕ) (sm : RaftStateMachine) (kv : StateMachine)
    → length sm.logs ≤ n
    → sm.last_applied ≡ pos a
    → suc (suc a) < two_63
    → suc (length sm.logs) < two_63
    → apply_committed u (sm, kv) ≡ (
        if leb_ℤ sm.commit_index sm.last_applied
        then (let d : Done = (ok tt, (sm, kv)) in d)
        else apply_from u n (sm.last_applied +ℤ pos 1) (sm, kv))
unfolding apply_committed
apply_committed_fuel u n a sm kv f e b l =
    let start : sm.last_applied +ℤ pos 1 ≡ pos (suc a) =
      ap (λ i. i +ℤ pos 1) e ∙ pos-+ℤ_one a (omega (arith, b)) in
    ap
      (λ x.
        if leb_ℤ sm.commit_index sm.last_applied
        then (let d : Done = (ok tt, (sm, kv)) in d)
        else x)
      (ap (λ i. apply_from u (suc (length sm.logs)) i (sm, kv)) start
        ∙ apply_from-same u (suc (length sm.logs)) n a sm kv (omega arith) (omega (arith, f)) l
            (omega (arith, b))
        ∙ ap (λ i. apply_from u n i (sm, kv)) (sym start))
