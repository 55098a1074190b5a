-- ===== src/Election/Committed/Keeps.antt =====
-- What applyCommittedLogs leaves alone (ddbr-server/infra/raft_state_machine.go).
use ddbr.Common.{
  ℕ, zero, suc, Bool, true, false, ◌≡◌, refl, ap, ◌∙◌, ◌&&◌, length, if◌then◌else◌, Bool-cases,
  Option-cases, inl, inr,
}
use ddbr.Common.Eq.{Str}
use ddbr.Common.Int.{ℤ, pos, leb_ℤ, ltb_ℤ, ◌+ℤ◌, ◌-ℤ◌, slice_get}
use ddbr.Common.Result.{Result, ok, err}
use ddbr.Entry.{LogEntry}
use ddbr.Kv.Command.{ApplyError, Unmarshal}
use ddbr.Kv.Machine.{StateMachine, apply_log}
use ddbr.RaftState.Apply.{Fault, panicked, failed, goes_on}
use ddbr.Election.{RaftStateMachine}
use ddbr.Election.Committed.{Both, after_apply, goes, apply_entry, apply_from, apply_committed}

-- All that an applied log changes is the index of the last applied entry.
abbrev pub Keeps : RaftStateMachine → RaftStateMachine → Type 0
Keeps sm sm' = (a : ℤ) × (sm' ≡ record sm { last_applied = a })

Keeps-trans : (r s t : RaftStateMachine) → Keeps r s → Keeps s t → Keeps r t
Keeps-trans r s t (a, e) (b, f) =
    (b, f ∙ ap (λ (x : RaftStateMachine). record x { last_applied = b }) e)

abbrev pub Kept : RaftStateMachine → Result ApplyError Both → Type 0
Kept sm (ok t) = Keeps sm t.0
Kept sm (err x) = Unit {0}

ends :
    (r : Result Fault (Unit {0})) (s : Both)
    → Keeps s.0 (let t : Result Fault (Unit {0}) × Both = (r, s) in t).1.0
ends r (sm, kv) = (sm.last_applied, refl)

if-Kept :
    (b : Bool) (sm : RaftStateMachine) (x y : Result ApplyError Both)
    → Kept sm x
    → Kept sm y
    → Kept sm (if b then x else y)
if-Kept true sm x y h k = h
if-Kept false sm x y h k = k

after_apply-Kept :
    (e : LogEntry) (sm : RaftStateMachine) (r : Result ApplyError Str × StateMachine)
    → Kept sm (after_apply e sm r)
after_apply-Kept e sm (ok r, kv) = (e.index, refl)
after_apply-Kept e sm (err x, kv) =
    if-Kept (goes_on (err x)) sm (ok (record sm { last_applied = e.index }, kv)) (err x)
      (e.index, refl) tt

pub apply_entry-Kept : (u : Unmarshal) (e : LogEntry) (s : Both) → Kept s.0 (apply_entry u e s)
unfolding apply_entry
apply_entry-Kept u e (sm, kv) =
    if-Kept (leb_ℤ e.index sm.last_applied) sm (ok (sm, kv)) (after_apply e sm (apply_log u e kv))
      (sm.last_applied, refl) (after_apply-Kept e sm (apply_log u e kv))

-- The rest of a round, after the entry.
goes-Keeps :
    (k : Both → Result Fault (Unit {0}) × Both)
    → ((s : Both) → Keeps s.0 (k s).1.0)
    → (s : Both) (r : Result ApplyError Both) → Kept s.0 r
    → Keeps s.0 (goes k s r).1.0
goes-Keeps k ih s (ok t) h = Keeps-trans s.0 t.0 (k t).1.0 h (ih t)
goes-Keeps k ih s (err x) h = ends (err (failed x)) s

apply_from-Keeps :
    (u : Unmarshal) (fuel : ℕ) (i : ℤ) (s : Both) → Keeps s.0 (apply_from u fuel i s).1.0
unfolding apply_from
apply_from-Keeps u zero i (sm, kv) = ends (ok tt) (sm, kv)
apply_from-Keeps u (suc fuel) i (sm, kv) =
    elim (Bool-cases (leb_ℤ i sm.commit_index && ltb_ℤ (i -ℤ pos 1) (pos (length sm.logs)))) [
      | inr b ↦ rw b (ends (ok tt) (sm, kv))
      | inl b ↦ elim (Option-cases (slice_get sm.logs (i -ℤ pos 1))) [
        | inl o ↦ rw (b, o) (ends (err panicked) (sm, kv))
        | inr (e, o) ↦
            rw (b, o)
              (goes-Keeps (apply_from u fuel (i +ℤ pos 1)) (apply_from-Keeps u fuel (i +ℤ pos 1))
                (sm, kv) (apply_entry u e (sm, kv)) (apply_entry-Kept u e (sm, kv)))
      ]
    ]

pub apply_committed-Keeps : (u : Unmarshal) (s : Both) → Keeps s.0 (apply_committed u s).1.0
unfolding apply_committed
apply_committed-Keeps u (sm, kv) = elim (Bool-cases (leb_ℤ sm.commit_index sm.last_applied)) [
  | inl b ↦ rw b (ends (ok tt) (sm, kv))
  | inr b ↦ rw b (apply_from-Keeps u (suc (length sm.logs)) (sm.last_applied +ℤ pos 1) (sm, kv))
]
