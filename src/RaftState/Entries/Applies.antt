-- ===== src/RaftState/Entries/Applies.antt =====
-- The end of the older AppendEntries, which applies what it committed
-- (ddbr-server/service/append_entries.go).
use ddbr.Common.{
  ℕ, suc, ◌-◌, ◌<◌, ◌≡◌, ◌≢◌, refl, inl, inr, true, List, [], ◌∷◌, some, arith, length, take,
  Bool-cases, drop,
}
use ddbr.Common.Eq.{Str}
use ddbr.Common.Int.{ℤ, pos, negsuc, two_63, ltb_ℤ, leb_ℤ}
use ddbr.Common.Result.{Result, ok, err}
use ddbr.Entry.{LogEntry}
use ddbr.Rpc.{AppendEntriesResp}
use ddbr.Kv.Command.{ApplyError, Unmarshal}
use ddbr.Kv.Machine.{StateMachine, apply_log}
use ddbr.RaftState.{RaftState, set_last_applied, set_commit_index}
use ddbr.RaftState.Apply.{
  Fault, panicked, failed, goes_on, stop_with, apply_entries, apply_committed_logs,
}
use ddbr.RaftState.Apply.Range.{committed_entries-take}
use ddbr.RaftState.Entries.{EntriesAnswer, after_commit, commit_up_to}

-- No panic, and the log and the term of `rs`
abbrev Quiet : RaftState → Result Fault (Unit {0}) × (RaftState × StateMachine) → Type 0
Quiet rs r = (r.0 ≢ err panicked) × (r.1.0.logs ≡ rs.logs) × (r.1.0.current_term ≡ rs.current_term)

stop_with-Quiet :
    (r : Result ApplyError Str) (rs : RaftState) (kv : StateMachine)
    → Quiet rs (stop_with r (rs, kv))
stop_with-Quiet (ok r) rs kv = (λ e. ground arith, refl, refl)
stop_with-Quiet (err x) rs kv = (λ e. ground arith, refl, refl)

apply_entries-Quiet :
    (u : Unmarshal) (es : List LogEntry) (rs : RaftState) (kv : StateMachine)
    → Quiet rs (apply_entries u es (rs, kv))
unfolding apply_entries
apply_entries-Quiet u [] rs kv = (λ e. ground arith, refl, refl)
apply_entries-Quiet u (e ∷ es) rs kv =
    let (r, kv') = apply_log u e kv in
    elim (Bool-cases (goes_on r)) [
      | inl on ↦ rw on (apply_entries-Quiet u es (set_last_applied e.index rs) kv')
      | inr off ↦ rw off (stop_with-Quiet r rs kv')
    ]

apply_committed_logs-Quiet :
    (u : Unmarshal) (a : ℕ) (i : ℤ) (rs : RaftState) (kv : StateMachine)
    → rs.last_applied ≡ pos a
    → rs.commit_index ≡ i
    → suc a < two_63
    → length rs.logs < two_63
    → Quiet rs (apply_committed_logs u (rs, kv))
unfolding apply_committed_logs
apply_committed_logs-Quiet u a (negsuc c) rs kv e d b l =
    let below : leb_ℤ rs.commit_index rs.last_applied ≡ true = rw (d, e) (ground arith) in
    rw below (λ x. ground arith, refl, refl)
apply_committed_logs-Quiet u a (pos c) rs kv e d b l =
    elim (Bool-cases (leb_ℤ rs.commit_index rs.last_applied)) [
      | inl below ↦ rw below (λ x. ground arith, refl, refl)
      | inr above ↦
          rw (above, committed_entries-take rs a c e d b l)
            (apply_entries-Quiet u (take (c - a) (drop (suc a) rs.logs)) rs kv)
    ]

-- The answer of a request that was taken, and a state with the log and the term of `rs`
abbrev pub Taken : AppendEntriesResp → RaftState → EntriesAnswer → Type 0
Taken resp rs (o, (rs', kv)) =
    (o ≡ some resp) × (rs'.logs ≡ rs.logs) × (rs'.current_term ≡ rs.current_term)

after_commit-Taken :
    (resp : AppendEntriesResp) (rs : RaftState)
    (r : Result Fault (Unit {0}) × (RaftState × StateMachine))
    → Quiet rs r
    → Taken resp rs (after_commit resp r)
after_commit-Taken resp rs (ok t, s) (p, l, t') = (refl, l, t')
after_commit-Taken resp rs (err panicked, s) (p, l, t') = absurd (p refl)
after_commit-Taken resp rs (err (failed x), s) (p, l, t') = (refl, l, t')

pub commit_up_to-Taken :
    (u : Unmarshal) (resp : AppendEntriesResp) (leader_commit : ℤ) (rs : RaftState)
    (kv : StateMachine) (a : ℕ)
    → rs.last_applied ≡ pos a
    → suc a < two_63
    → length rs.logs < two_63
    → Taken resp rs (commit_up_to u resp leader_commit (rs, kv))
unfolding commit_up_to
commit_up_to-Taken u resp leader_commit rs kv a e b l =
    elim (Bool-cases (ltb_ℤ rs.commit_index leader_commit)) [
      | inl up ↦ rw up (
          after_commit-Taken resp rs _
            (apply_committed_logs-Quiet u a _ (set_commit_index _ rs) kv e refl b l))
      | inr low ↦ rw low (refl, refl, refl)
    ]
