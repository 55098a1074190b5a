-- ===== src/Recovery/Replay.antt =====
-- What a server has after a restart (ddbr-server/infra/init_manager.go).
use ddbr.Common.{
  ℕ, suc, ◌+◌, ◌≤◌, ◌≡◌, ◌≢◌, refl, ap, ◌∙◌, Bool, true, false, List, [], ◌∷◌, some, arith, length,
  if◌then◌else◌,
}
use mathlib.Core.Path.{fun_ext}
use ddbr.Common.Eq.{Str}
use ddbr.Common.Int.{pos, ◌<ℤ◌}
use ddbr.Common.Result.{ok}
use ddbr.Entry.{LogEntry, IsConsecutive, last_index-length}
use ddbr.Kv.Command.{Unmarshal}
use ddbr.Kv.Machine
use ddbr.Kv.Machine.{StateMachine, apply_log}
use ddbr.Kv.Apply.{Carries, write_all, Write, apply_log-write}
use ddbr.RaftState.{RaftState, set_last_applied}
use ddbr.Recovery.{
  Host, PersistentState, MarshalState, UnmarshalState, written, persistent_state,
  persist_raft_state, replay, replay_logs, recover_from_storage, read_file, load, with_logs,
  restored,
}

module _ (u : Unmarshal) where
  replay-new :
      (k : ℕ) (e : LogEntry) (es : List LogEntry) (rs : RaftState) (sm : StateMachine) {r : Str}
      → pos k <ℤ e.index
      → (apply_log u e sm).0 ≡ ok r
      → replay u (pos k) (e ∷ es) (rs, sm)
        ≡ replay u (pos k) es (set_last_applied e.index rs, (apply_log u e sm).1)
  unfolding replay
  replay-new k e es rs sm l h = ap (replay u (pos k) es) (ground (arith, h))

  -- Replaying consecutive entries that are all new.
  replay-Carries :
      (k n : ℕ) (es : List LogEntry) (ws : List Write) (rs : RaftState) (sm : StateMachine)
      → k ≤ n
      → IsConsecutive n es
      → Carries es ws
      → rs.last_applied ≡ pos n
      → sm.last_applied_index ≡ pos n
      → let (rs', sm') = replay u (pos k) es (rs, sm) in
        ((j : Str) → Machine.get sm' j ≡ write_all ws (Machine.get sm) j)
        × (sm'.last_applied_index ≡ pos (n + length es))
        × (rs'.last_applied ≡ pos (n + length es))
        × (persistent_state rs' ≡ persistent_state rs)
  unfolding replay
  replay-Carries k n [] [] rs sm l c w a b =
      let e : n + 0 ≡ n = omega arith in (λ j. refl, rw e b, rw e a, refl)
  replay-Carries k n [] (x ∷ ws) rs sm l c w a b = absurd w
  replay-Carries k n (e ∷ es) [] rs sm l c w a b = absurd w
  replay-Carries k n (e ∷ es) (x ∷ ws) rs sm l c w a b =
      let applied = apply_log-write u x e sm (rw (b, c.0) (omega arith)) w.0 w.1 in
      let rest =
        replay-Carries k (suc n) es ws (set_last_applied e.index rs) (apply_log u e sm).1
          (omega arith) c.1 w.2 c.0 (applied.2 ∙ c.0) in
      let shift : n + suc (length es) ≡ suc n + length es = omega arith in
      rw (replay-new k e es rs sm (rw c.0 (omega arith)) applied.0, shift)
        (λ j. rest.0 j ∙ ap (λ m. write_all ws m j) (fun_ext applied.1), rest.1, rest.2, rest.3)

  replay_logs-Carries :
      (es : List LogEntry) (ws : List Write) (rs : RaftState) (sm : StateMachine)
      → es ≢ []
      → IsConsecutive 0 es
      → Carries es ws
      → rs.last_applied ≡ pos 0
      → sm.last_applied_index ≡ pos 0
      → let (rs', sm') = replay_logs u es (rs, sm) in
        ((j : Str) → Machine.get sm' j ≡ write_all ws (Machine.get sm) j)
        × (persistent_state rs' ≡ persistent_state rs)
        × (rs'.commit_index ≡ pos (length es))
        × (rs'.last_applied ≡ pos (length es))
  unfolding replay_logs
  replay_logs-Carries [] ws rs sm ne c w a b = absurd (ne refl)
  replay_logs-Carries (e ∷ es) ws rs sm ne c w a b =
      let r = replay-Carries 0 0 (e ∷ es) ws rs sm (omega arith) c w a b in
      let z : 0 + length (e ∷ es) ≡ length (e ∷ es) = omega arith in
      simp a (r.0, r.3, last_index-length (e ∷ es) c, r.2 ∙ ap pos z)

  recover-load :
      (v : UnmarshalState) (h : Host) (text : Str) (s : PersistentState)
      → h.file ≡ some text
      → v text ≡ ok s
      → recover_from_storage u v true h ≡ load u (ok s) h
  unfolding recover_from_storage
  recover-load v h text s f p = ap (λ o. read_file u v o h) f ∙ ap (λ r. load u r h) p

  load-leader :
      (s : PersistentState) (h : Host)
      → h.is_master ≡ true
      → load u (ok s) h ≡ (ok tt, with_logs h (replay_logs u s.logs (restored s h.raft, h.kv)))
  unfolding replay_logs
  load-leader s h m =
      ap
        (λ (b : Bool). (
          ok tt,
          with_logs h (
              if b
              then replay_logs u s.logs (restored s h.raft, h.kv)
              else (restored s h.raft, h.kv)),
        ))
        m

-- A leader that starts with nothing applied, from a file whose state has a log of plain writes, not
-- empty and counting from 1, has the map of all these writes, the saved term and vote and log, and
-- takes the whole log as committed and applied.
pub recover_from_storage-leader :
    (u : Unmarshal) (v : UnmarshalState) (h : Host) (text : Str) (s : PersistentState)
    (ws : List Write)
    → h.is_master ≡ true
    → h.file ≡ some text
    → v text ≡ ok s
    → s.logs ≢ []
    → IsConsecutive 0 s.logs
    → Carries s.logs ws
    → h.raft.last_applied ≡ pos 0
    → h.kv.last_applied_index ≡ pos 0
    → let (r, h') = recover_from_storage u v true h in
      (r ≡ ok tt)
      × ((j : Str) → Machine.get h'.kv j ≡ write_all ws (Machine.get h.kv) j)
      × (persistent_state h'.raft ≡ s)
      × (h'.raft.commit_index ≡ pos (length s.logs))
      × (h'.raft.last_applied ≡ pos (length s.logs))
recover_from_storage-leader u v h text s ws m f p ne c w a b =
    let r = replay_logs-Carries u s.logs ws (restored s h.raft) h.kv ne c w a b in
    rw (recover-load u v h text s f p ∙ load-leader u s h m) (refl, r.0, r.1, r.2, r.3)

-- What an initialised server persists is recovered, on a server in any state that does not lead:
-- the term, the vote and the log are those that were persisted, and the commit index, the last
-- applied index and the store do not change. The text of the state is read back as that state.
pub recover-persist :
    (u : Unmarshal) (m : MarshalState) (v : UnmarshalState) (h start : Host)
    → v (m (persistent_state h.raft)) ≡ ok (persistent_state h.raft)
    → h.is_init ≡ true
    → start.is_master ≡ false
    → let file = (persist_raft_state m written h).1.file in
      let (r, h') = recover_from_storage u v true (record start { file = file }) in
      (r ≡ ok tt)
      × (persistent_state h'.raft ≡ persistent_state h.raft)
      × (h'.raft.commit_index ≡ start.raft.commit_index)
      × (h'.raft.last_applied ≡ start.raft.last_applied)
      × (h'.kv ≡ start.kv)
unfolding persist_raft_state
recover-persist u m v h start p i l =
    let text = m (persistent_state h.raft) in
    let file : (persist_raft_state m written h).1.file ≡ some text = rw i refl in
    rw
      (
        file,
        recover-load u v (record start { file = some text }) text (persistent_state h.raft) refl p,
        l,
      )
      (refl, refl, refl, refl, refl)
