-- ===== src/Election/Committed.antt =====
-- applyCommittedLogs of the election state machine (ddbr-server/infra/raft_state_machine.go), which
-- AppendEntries starts where the commit index goes up.
pub mod Keeps
pub mod Fuel
use ddbr.Common.{
  ℕ, zero, suc, ◌+◌, ◌-◌, ◌<◌, ◌≤◌, ◌≡◌, Bool-cases, subst, refl, sym, ap, ◌∙◌, inl, inr, true,
  false, ◌&&◌, List, [], ◌∷◌, none, some, arith, length, take, drop, drop-get, if◌then◌else◌,
}
use mathlib.Core.Path.{fun_ext}
use ddbr.Common.Eq.{Str, bytes}
use ddbr.Common.Int.{ℤ, pos, two_63, leb_ℤ, ltb_ℤ, ◌+ℤ◌, ◌-ℤ◌, slice_get, pos-ℤ_one, pos-+ℤ_one}
use ddbr.Common.Result.{Result, ok, err}
use ddbr.Entry.{LogEntry, IsConsecutive}
use ddbr.Kv.Command.{ApplyError, Unmarshal}
use ddbr.Kv.Machine
use ddbr.Kv.Machine.{StateMachine, apply_log}
use ddbr.Kv.Apply.{Write, Carries, write_all, apply_log-write}
use ddbr.RaftState.Apply.{Fault, panicked, failed, goes_on}
use ddbr.RaftState.Apply.Range.{IsConsecutive-drop}
use ddbr.Election.{RaftStateMachine}

abbrev pub Both : Type 0
Both = RaftStateMachine × StateMachine

abbrev pub after_apply :
    LogEntry → RaftStateMachine → Result ApplyError Str × StateMachine → Result ApplyError Both
after_apply e sm (ok r, kv) = ok (record sm { last_applied = e.index }, kv)
after_apply e sm (err x, kv) =
    if goes_on (err x) then ok (record sm { last_applied = e.index }, kv) else err x

-- One round of the loop: an entry that is applied already is passed over.
unfoldable pub apply_entry : Unmarshal → LogEntry → Both → Result ApplyError Both
apply_entry u e (sm, kv) =
    if leb_ℤ e.index sm.last_applied then ok (sm, kv) else after_apply e sm (apply_log u e kv)

-- The rest of a round, with the loop from the next place on.
abbrev pub goes :
    (Both → Result Fault (Unit {0}) × Both)
    → Both
    → Result ApplyError Both
    → Result Fault (Unit {0}) × Both
goes next s (ok s') = next s'
goes next s (err x) = (err (failed x), s)

-- The loop, on fuel, from the place `i - 1` of the log.
unfoldable pub apply_from : Unmarshal → ℕ → ℤ → Both → Result Fault (Unit {0}) × Both
apply_from u zero i s = (ok tt, s)
apply_from u (suc fuel) i (sm, kv) =
    if leb_ℤ i sm.commit_index && ltb_ℤ (i -ℤ pos 1) (pos (length sm.logs))
    then elim (slice_get sm.logs (i -ℤ pos 1)) [
      | none ↦ (err panicked, (sm, kv))
      | some e ↦ goes (apply_from u fuel (i +ℤ pos 1)) (sm, kv) (apply_entry u e (sm, kv))
    ]
    else (ok tt, (sm, kv))

-- The log has no more places than it is long, so one round more than its length is enough.
unfoldable pub apply_committed : Unmarshal → Both → Result Fault (Unit {0}) × Both
apply_committed u (sm, kv) =
    if leb_ℤ sm.commit_index sm.last_applied
    then (ok tt, (sm, kv))
    else apply_from u (suc (length sm.logs)) (sm.last_applied +ℤ pos 1) (sm, kv)

module _ (u : Unmarshal) where
  apply_entry-new :
      (a : ℕ) (x : LogEntry) (sm : RaftStateMachine) (kv : StateMachine)
      → sm.last_applied ≡ pos a
      → x.index ≡ pos (suc a)
      → (apply_log u x kv).0 ≡ ok (bytes "OK")
      → apply_entry u x (sm, kv) ≡ ok (record sm { last_applied = x.index }, (apply_log u x kv).1)
  unfolding apply_entry
  apply_entry-new a x sm kv la i h = ground (arith, la, i, h)

  goes_on-test :
      (a c n : ℕ) (commit : ℤ)
      → commit ≡ pos c
      → a < c
      → a < n
      → (leb_ℤ (pos (suc a)) commit && ltb_ℤ (pos a) (pos n)) ≡ true
  goes_on-test a c n commit ci ac al = ground (arith, ci)

  apply_from-next :
      (fuel a c : ℕ) (x : LogEntry) (sm : RaftStateMachine) (kv : StateMachine)
      → sm.last_applied ≡ pos a
      → sm.commit_index ≡ pos c
      → a < c
      → a < length sm.logs
      → suc (length sm.logs) < two_63
      → slice_get sm.logs (pos a) ≡ some x
      → x.index ≡ pos (suc a)
      → (apply_log u x kv).0 ≡ ok (bytes "OK")
      → apply_from u (suc fuel) (pos (suc a)) (sm, kv)
        ≡ apply_from u fuel
            (pos (suc (suc a)))
            (record sm { last_applied = x.index }, (apply_log u x kv).1)
  unfolding apply_from
  apply_from-next fuel a c x sm kv la ci ac al b g i h =
      rw
        (
          pos-ℤ_one a (omega arith),
          goes_on-test a c (length sm.logs) sm.commit_index ci ac al,
          g,
          apply_entry-new a x sm kv la i h,
          pos-+ℤ_one (suc a) (omega arith),
        )
        refl

  apply_from-stop :
      (fuel a : ℕ) (sm : RaftStateMachine) (kv : StateMachine)
      → sm.commit_index ≡ pos a
      → apply_from u fuel (pos (suc a)) (sm, kv) ≡ (ok tt, (sm, kv))
  unfolding apply_from
  apply_from-stop zero a sm kv ci = refl
  apply_from-stop (suc fuel) a sm kv ci =
      let off : leb_ℤ (pos (suc a)) sm.commit_index ≡ false = ground (arith, ci) in rw off refl

  -- Everything up to `c` is applied, and the store has done these writes.
  abbrev Applied : ℕ → List Write → Both → Result Fault (Unit {0}) × Both → Type 0
  Applied c ws (sm, kv) (r, (sm', kv')) =
      (r ≡ ok tt)
      × ((j : Str) → Machine.get kv' j ≡ write_all ws (Machine.get kv) j)
      × (sm'.last_applied ≡ pos c)
      × (kv'.last_applied_index ≡ pos c)

  apply_from-Applied :
      (n fuel a c : ℕ) (ws : List Write) (sm : RaftStateMachine) (kv : StateMachine)
      → a + n ≡ c
      → n < fuel
      → sm.last_applied ≡ pos a
      → sm.commit_index ≡ pos c
      → kv.last_applied_index ≡ pos a
      → c ≤ length sm.logs
      → suc (length sm.logs) < two_63
      → IsConsecutive 0 sm.logs
      → Carries (take n (drop a sm.logs)) ws
      → Applied c ws (sm, kv) (apply_from u fuel (pos (suc a)) (sm, kv))
  apply_from-Applied zero fuel a c [] sm kv e f la ci ka cl b k w =
      let same : a ≡ c = omega arith in
      rw (apply_from-stop fuel a sm kv (ci ∙ ap pos (sym same)))
        (refl, λ j. refl, la ∙ ap pos same, ka ∙ ap pos same)
  apply_from-Applied zero fuel a c (x ∷ ws) sm kv e f la ci ka cl b k w = absurd w
  apply_from-Applied (suc n) zero a c ws sm kv e f la ci ka cl b k w = absurd (omega arith)
  apply_from-Applied (suc n) (suc fuel) a c [] sm kv e f la ci ka cl b k w =
      elim (drop-get a sm.logs) [
        | inl (g, short) ↦ absurd (omega arith)
        | inr (x, g, d, l) ↦ absurd (subst (λ es. Carries (take (suc n) es) []) d w)
      ]
  apply_from-Applied (suc n) (suc fuel) a c (y ∷ ws) sm kv e f la ci ka cl b k w =
      elim (drop-get a sm.logs) [
        | inl (g, short) ↦ absurd (omega arith)
        | inr (x, g, d, l) ↦
            let carried = subst (λ es. Carries (take (suc n) es) (y ∷ ws)) d w in
            let numbered : IsConsecutive a (x ∷ drop (suc a) sm.logs) = subst (IsConsecutive a) d (
              subst (λ i. IsConsecutive i (drop a sm.logs)) (omega arith)
                (IsConsecutive-drop a 0 sm.logs k)) in
            let applied =
              apply_log-write u y x kv (rw (ka, numbered.0) (omega arith)) carried.0 carried.1 in
            let sm' = record sm { last_applied = x.index } in
            let kv' = (apply_log u x kv).1 in
            let rest =
              apply_from-Applied n fuel (suc a) c ws sm' kv' (omega arith) (omega arith) numbered.0
                ci (applied.2 ∙ numbered.0) cl b k carried.2 in
            rw (apply_from-next fuel a c x sm kv la ci (omega arith) l b g numbered.0 applied.0) (
              rest.0,
              λ j. rest.1 j ∙ ap (λ m. write_all ws m j) (fun_ext applied.1),
              rest.2,
              rest.3,
            )
      ]

  apply_committed-from :
      (a c : ℕ) (sm : RaftStateMachine) (kv : StateMachine)
      → a ≤ c
      → suc a < two_63
      → sm.last_applied ≡ pos a
      → sm.commit_index ≡ pos c
      → apply_committed u (sm, kv) ≡ apply_from u (suc (length sm.logs)) (pos (suc a)) (sm, kv)
  unfolding apply_committed
  apply_committed-from a c sm kv ac b la ci =
      elim (Bool-cases (leb_ℤ sm.commit_index sm.last_applied)) [
        | inl t ↦
            let same : sm.commit_index ≡ pos a = ground (arith, t, la, ci) in
            rw t (sym (apply_from-stop (suc (length sm.logs)) a sm kv same))
        | inr f ↦ rw f (
            ap (λ i. apply_from u (suc (length sm.logs)) i (sm, kv))
              (ap (λ l. l +ℤ pos 1) la ∙ pos-+ℤ_one a b))
      ]

-- Where the log counts from 1, the store and the machine have applied it up to the same place, the
-- commit index is between that place and the log's end, and the entries up to it carry plain
-- writes, applyCommittedLogs applies exactly these, each once and in order: the store then is the
-- map with these writes done. The log has fewer than 2^63 - 1 entries.
pub apply_committed-writes :
    (u : Unmarshal) (a c : ℕ) (ws : List Write) (sm : RaftStateMachine) (kv : StateMachine)
    → a ≤ c
    → c ≤ length sm.logs
    → suc (length sm.logs) < two_63
    → sm.last_applied ≡ pos a
    → sm.commit_index ≡ pos c
    → kv.last_applied_index ≡ pos a
    → IsConsecutive 0 sm.logs
    → Carries (take (c - a) (drop a sm.logs)) ws
    → let (r, (sm', kv')) = apply_committed u (sm, kv) in
      (r ≡ ok tt)
      × ((j : Str) → Machine.get kv' j ≡ write_all ws (Machine.get kv) j)
      × (sm'.last_applied ≡ pos c)
      × (kv'.last_applied_index ≡ pos c)
apply_committed-writes u a c ws sm kv ac cl b la ci ka k w =
    rw (apply_committed-from u a c sm kv ac (omega arith) la ci) (
      apply_from-Applied u (c - a) (suc (length sm.logs)) a c ws sm kv (omega arith) (omega arith)
        la ci ka cl b k w)
