-- ===== src/RaftState/Entries/Replaces.antt =====
-- What the older AppendEntries does to the log (ddbr-server/service/append_entries.go).
use mathlib.Core.Option
use ddbr.Common.{
  ℕ, suc, ◌+◌, ◌≤◌, ◌<◌, ◌≡◌, refl, sym, ap, ◌∙◌, ◌⊎◌, inl, inr, true, false, List, [], ◌∷◌, ◌++◌,
  some, arith, length, ltb, take, get_elem?, length-append, length-take, take-length, if-true,
  Bool-cases, drop-get,
}
use ddbr.Common.Eq.{Str}
use ddbr.Common.Int.{ℤ, pos, two_63, ltb_ℤ, leb_ℤ, ◌≤ℤ◌, ◌+ℤ◌, pos-ℤ_one, eq_of_parts, eqb_ℤ_iff}
use ddbr.Entry.{LogEntry}
use ddbr.Rpc.{AppendEntriesReq, AppendEntriesResp}
use ddbr.Kv.Command.{Unmarshal}
use ddbr.Kv.Machine.{StateMachine}
use ddbr.RaftState.{RaftState, set_logs}
use ddbr.RaftState.Entries.{
  take_over, has_prev, request_entries, cut_at, put_entries, after_prev, service_append_entries,
}
use ddbr.RaftState.Entries.Applies.{Taken, commit_up_to-Taken}

cut_at-take :
    (n : ℕ) (logs : List LogEntry) → n ≤ length logs → cut_at (pos n) logs ≡ some (take n logs)
cut_at-take n logs h = elim (Bool-cases (ltb n (length logs))) [
  | inl b ↦ rw b refl
  | inr b ↦ rw b (ap some (sym (take-length n logs (ground arith))))
]

-- The log has the entry before place `n`, with this term.
abbrev HasPrev : ℕ → ℤ → List LogEntry → Type 0
HasPrev n term logs =
    (n ≡ 0)
    ⊎ ((m : ℕ) × (x : LogEntry) × (n ≡ suc m) × (get_elem? logs m ≡ some x) × (x.term ≡ term))

get_elem?-length :
    (i : ℕ) (logs : List LogEntry) {x : LogEntry} → get_elem? logs i ≡ some x → i < length logs
get_elem?-length i logs h = elim (drop-get i logs) [
  | inl (g, l) ↦ absurd (ground (arith, sym g ∙ h))
  | inr (y, g, d, l) ↦ l
]

HasPrev-length : (n : ℕ) (term : ℤ) (logs : List LogEntry) → HasPrev n term logs → n ≤ length logs
HasPrev-length n term logs (inl e) = omega arith
HasPrev-length n term logs (inr (m, x, e, g, t)) = omega (arith, get_elem?-length m logs g)

has_prev-HasPrev :
    (n : ℕ) (term : ℤ) (logs : List LogEntry)
    → HasPrev n term logs
    → length logs < two_63
    → has_prev (pos n) term logs ≡ some true
unfolding has_prev
has_prev-HasPrev n term logs (inl e) l = rw e refl
has_prev-HasPrev n term logs (inr (m, x, e, g, t)) l =
    let inside = get_elem?-length m logs g in
    let short : leb_ℤ (pos (length logs)) (pos m) ≡ false = ground (arith, inside) in
    let positive : ltb_ℤ (pos 0) (pos (suc m)) ≡ true = ground arith in
    rw (e, pos-ℤ_one m (omega (arith, inside, l)), short, g, t)
      (if-true _ _ _ positive ∙ ap some ((eqb_ℤ_iff term term).1 refl))

length-request_entries :
    (term next_index : ℤ) (i : ℕ) (es : List Str)
    → length (request_entries term next_index i es) ≡ length es
unfolding request_entries
length-request_entries term next_index i [] = refl
length-request_entries term next_index i (s ∷ ss) =
    ap suc (length-request_entries term next_index (suc i) ss)

-- The log that a request with entries leaves
abbrev replaced : ℕ → AppendEntriesReq → List LogEntry → List LogEntry
replaced n req logs = take n logs ++ request_entries req.term (pos n +ℤ pos 1) 0 req.entries

put_entries-some :
    (req : AppendEntriesReq) (s : Str) (ss : List Str) (rs : RaftState) (logs : List LogEntry)
    → cut_at req.prev_log_index rs.logs ≡ some logs
    → put_entries req (s ∷ ss) rs
      ≡ some
          (set_logs (logs ++ request_entries req.term (req.prev_log_index +ℤ pos 1) 0 (s ∷ ss)) rs)
unfolding put_entries
put_entries-some req s ss rs logs h =
    ap
      (Option.map
        (λ l. set_logs (l ++ request_entries req.term (req.prev_log_index +ℤ pos 1) 0 (s ∷ ss)) rs))
      h

put_entries-replaced :
    (req : AppendEntriesReq) (n : ℕ) (s : Str) (ss : List Str) (rs : RaftState)
    → req.prev_log_index ≡ pos n
    → req.entries ≡ s ∷ ss
    → n ≤ length rs.logs
    → put_entries req req.entries rs ≡ some (set_logs (replaced n req rs.logs) rs)
put_entries-replaced req n s ss rs p e h =
    ap (λ es. put_entries req es rs) e
    ∙ put_entries-some req s ss rs (take n rs.logs)
        (ap (λ i. cut_at i rs.logs) p ∙ cut_at-take n rs.logs h)
    ∙ ap
        (λ i.
          some (set_logs (take n rs.logs ++ request_entries req.term (i +ℤ pos 1) 0 (s ∷ ss)) rs))
        p
    ∙ ap
        (λ es.
          some (set_logs (take n rs.logs ++ request_entries req.term (pos n +ℤ pos 1) 0 es) rs))
        (sym e)

take_over-term :
    (term : ℤ) (rs : RaftState)
    → rs.current_term ≤ℤ term
    → ((take_over term rs).current_term ≡ term)
      × ((take_over term rs).logs ≡ rs.logs)
      × ((take_over term rs).last_applied ≡ rs.last_applied)
take_over-term term rs h = elim (Bool-cases (ltb_ℤ rs.current_term term)) [
  | inl higher ↦ rw higher (refl, refl, refl)
  | inr same ↦ rw same (eq_of_parts rs.current_term term (ground (arith, h, same)), refl, refl)
]

length-replaced :
    (n : ℕ) (req : AppendEntriesReq) (logs : List LogEntry)
    → n ≤ length logs
    → length (replaced n req logs) ≡ n + length req.entries
length-replaced n req logs h =
    length-append (take n logs) _
    ∙ ground (
      arith,
      length-take n logs,
      length-request_entries req.term (pos n +ℤ pos 1) 0 req.entries,
      h,
    )

after_prev-replaced :
    (u : Unmarshal) (req : AppendEntriesReq) (rs : RaftState) (kv : StateMachine) (n a : ℕ)
    (s : Str) (ss : List Str) (resp : AppendEntriesResp)
    → req.prev_log_index ≡ pos n
    → req.entries ≡ s ∷ ss
    → n ≤ length rs.logs
    → rs.last_applied ≡ pos a
    → suc a < two_63
    → n + length req.entries < two_63
    → Taken
        (record resp { success = true })
        (set_logs (replaced n req rs.logs) rs)
        (after_prev u req resp (rs, kv) (some true))
after_prev-replaced u req rs kv n a s ss resp p e h la b l =
    rw (put_entries-replaced req n s ss rs p e h) (
      commit_up_to-Taken u (record resp { success = true }) req.leader_commit
        (set_logs (replaced n req rs.logs) rs) kv a la b (rw (length-replaced n req rs.logs h) l))

-- Of a request with entries, whose term is no lower than the node's and whose previous index is
-- `n`, where the log has an entry of the previous term at that index or `n` is 0, with a last
-- applied index that is not negative and below 2^63 - 1 and logs shorter than 2^63: the answer is a
-- success with the request's term, which is the node's from then on, and the log is its first `n`
-- entries and those of the request. Entries after these are gone, whether they agree with the
-- request or not, and whether they are committed or not.
pub service_append_entries-replaces :
    (u : Unmarshal) (req : AppendEntriesReq) (rs : RaftState) (kv : StateMachine) (n a : ℕ)
    (s : Str) (ss : List Str)
    → req.prev_log_index ≡ pos n
    → req.entries ≡ s ∷ ss
    → rs.current_term ≤ℤ req.term
    → HasPrev n req.prev_log_term rs.logs
    → rs.last_applied ≡ pos a
    → suc a < two_63
    → length rs.logs < two_63
    → n + length req.entries < two_63
    → let (o, (rs', kv')) = service_append_entries u req (rs, kv) in
      (o ≡ some (record { term = req.term; success = true }))
      × (rs'.current_term ≡ req.term)
      × (rs'.logs ≡ take n rs.logs ++ request_entries req.term (pos n +ℤ pos 1) 0 req.entries)
      × (length rs'.logs ≡ n + length req.entries)
unfolding service_append_entries
service_append_entries-replaces u req rs kv n a s ss p e t h la b l l' =
    let rs1 = take_over req.term rs in
    let (term, logs, applied) = take_over-term req.term rs t in
    let here : HasPrev n req.prev_log_term rs1.logs = rw logs h in
    let short : length rs1.logs < two_63 = rw logs l in
    let fits : n ≤ length rs1.logs = HasPrev-length n req.prev_log_term rs1.logs here in
    let current : ltb_ℤ req.term rs.current_term ≡ false = ground (arith, t) in
    let resp : AppendEntriesResp = record { term = rs1.current_term; success = false } in
    let prev : has_prev req.prev_log_index req.prev_log_term rs1.logs ≡ some true =
      ap (λ i. has_prev i req.prev_log_term rs1.logs) p
      ∙ has_prev-HasPrev n req.prev_log_term rs1.logs here short in
    let (answer, log, same) =
      after_prev-replaced u req rs1 kv n a s ss resp p e fits (applied ∙ la) b l' in
    rw (current, prev)
      (
        answer
            ∙ ap (λ i. some (let r : AppendEntriesResp = record { term = i; success = true } in r))
                term,
        same ∙ term,
        log ∙ ap (replaced n req) logs,
        ap length log ∙ length-replaced n req rs1.logs fits,
      )
