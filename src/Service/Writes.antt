-- ===== src/Service/Writes.antt =====
-- Set and Delete on a leader refine the writes of a map (ddbr-server/service/kv_impl.go).
use mathlib.Core.Path.{fun_ext}
use ddbr.Common.{
  ℕ, suc, ◌+◌, ◌<◌, ◌≡◌, refl, sym, subst, ap, ◌∙◌, inl, inr, true, List, [], ◌∷◌, some, arith,
  length,
}
use ddbr.Common.Eq.{Str, str_Eq}
use ddbr.Common.Int.{pos, two_63, ◌<ℤ◌}
use ddbr.Kv.Command.{Unmarshal}
use ddbr.Kv.Machine
use ddbr.Kv.Machine.{StateMachine, apply_log}
use ddbr.Kv.Apply.{View, Write, encode, IsPlain, write_view, apply_log-write}
use ddbr.RaftState.{set_last_applied}
use ddbr.RaftState.Apply.{apply_entries, committed_entries}
use ddbr.RaftState.Apply.Range.{apply_committed_logs-some, apply_entries-one}
use ddbr.Replication.{PeerStep}
use ddbr.Service.{Node, Handled, done, get, found}
use ddbr.Service.Append.{added, Taken}
use ddbr.Common.Int.{ℤ}
use ddbr.Service.Settled.{
  Settled, handle, write_store, handle-commit_write, get-write_store, last-write_store,
  write_view_twice, grown, length-grown, grown-IsConsecutive, grown_entries, commit_write,
  settled-finish, Keeps-Settled,
}

abbrev pub IsSettled : Node → Type 0
IsSettled n = (a : ℕ) × Settled n a

-- What a write promises, of its reply and the node after it.
pub record Writes (w : Write) (n : Node) (r : Handled) : Type 0 where
  pub succeeds : r.0 ≡ some (record { success = true; message = done })
  pub stores : (j : Str) → Machine.get r.1.kv j ≡ write_view w (Machine.get n.kv) j
  pub logs_one : length r.1.raft.logs ≡ suc (length n.raft.logs)
  pub same_peers : r.1.raft.peers ≡ n.raft.peers
  pub stays_settled : IsSettled r.1

module _ (u : Unmarshal) (t : ℤ) (w : Write) (n : Node) (a : ℕ) (h : Settled n a)
    (b : suc (suc (length n.raft.logs)) < two_63) where
  before_commit : (grown n.raft t (encode w)).last_applied <ℤ pos (suc (length n.raft.logs))
  before_commit = rw h.applied (omega (arith, h.applied_le))

  -- No entry is due.
  Writes-none_due :
      length n.raft.logs ≡ a
      → committed_entries (grown n.raft t (encode w)) ≡ some []
      → Writes w n (commit_write u t w n)
  unfolding apply_entries
  Writes-none_due l e =
      rw
        (settled-finish u t w n (grown n.raft t (encode w)) n.kv
          (apply_committed_logs-some u (grown n.raft t (encode w)) n.kv [] before_commit e) refl)
        (record {
          succeeds = refl;
          stores = get-write_store w n.kv;
          logs_one = length-grown n.raft t (encode w);
          same_peers = refl;
          stays_settled = (
            a,
            record {
              leads = h.leads;
              counts = grown-IsConsecutive n.raft t (encode w) h.counts;
              commits = ap pos (sym (length-grown n.raft t (encode w)));
              applied = h.applied;
              kv_applied = last-write_store w n.kv ∙ h.kv_applied;
              applied_le = omega (arith, length-grown n.raft t (encode w), h.applied_le);
              applied_ge = omega (arith, length-grown n.raft t (encode w), h.applied_ge);
            },
          );
        })

  -- The write's own entry is due.
  Writes-own_due :
      IsPlain w
      → length n.raft.logs ≡ suc a
      → committed_entries (grown n.raft t (encode w))
        ≡ some (added t (length n.raft.logs) (encode w) ∷ [])
      → Writes w n (commit_write u t w n)
  Writes-own_due p l e =
      let x = added t (length n.raft.logs) (encode w) in
      let rs = grown n.raft t (encode w) in
      let sm = (apply_log u x n.kv).1 in
      let applied =
        apply_log-write u w x n.kv (rw h.kv_applied (omega (arith, h.applied_le))) refl p in
      rw
        (settled-finish u t w n (set_last_applied x.index rs) sm
          (apply_committed_logs-some u rs n.kv (x ∷ []) before_commit e
            ∙ apply_entries-one u x rs n.kv applied.0)
          refl)
        (record {
          succeeds = refl;
          stores =
              write_view_twice w (Machine.get (write_store w sm)) (Machine.get sm)
                (Machine.get n.kv) (get-write_store w sm) applied.1;
          logs_one = length-grown n.raft t (encode w);
          same_peers = refl;
          stays_settled = (
            suc (length n.raft.logs),
            record {
              leads = h.leads;
              counts = grown-IsConsecutive n.raft t (encode w) h.counts;
              commits = ap pos (sym (length-grown n.raft t (encode w)));
              applied = refl;
              kv_applied = last-write_store w sm ∙ applied.2;
              applied_le = omega (arith, length-grown n.raft t (encode w));
              applied_ge = omega (arith, length-grown n.raft t (encode w));
            },
          );
        })

  commit_write-Writes : IsPlain w → Writes w n (commit_write u t w n)
  commit_write-Writes p = elim (grown_entries n a t (encode w) h b) [
    | inl (l, e) ↦ Writes-none_due l e
    | inr (l, e) ↦ Writes-own_due p l e
  ]

-- On a leader whose log counts from 1, is committed and is applied but for at most its last entry,
-- a Set or Delete with a key and value that hold no colon, which enough peers take, or any if there
-- are no peers, replies with success, does to the stored map what it says, logs one entry, keeps
-- the peers, and leaves the node in such a state again. The log is shorter than 2^63 - 2 entries.
pub handle-Writes :
    (u : Unmarshal) (ss : List PeerStep) (w : Write) (n : Node)
    → IsSettled n
    → Taken ss n.raft.peers
    → IsPlain w
    → suc (suc (length n.raft.logs)) < two_63
    → Writes w n (handle u ss w n)
handle-Writes u ss w n (a, h) t p b =
    let (base, keeps, e) = handle-commit_write u ss w n h.leads t h.counts (omega (arith, b)) in
    let m : Node = record n { raft = base } in
    let b' : suc (suc (length m.raft.logs)) < two_63 = rw keeps.logs b in
    let r = commit_write-Writes u n.raft.current_term w m a (Keeps-Settled n a base h keeps) b' p in
    rw e (record {
      succeeds = r.succeeds;
      stores = r.stores;
      logs_one = r.logs_one ∙ ap (λ l. suc (length l)) keeps.logs;
      same_peers = r.same_peers ∙ keeps.peers;
      stays_settled = r.stays_settled;
    })

-- A history of writes, each with its schedule, and the map that it makes.
unfoldable pub run : Unmarshal → List (List PeerStep × Write) → Node → Node
run u [] n = n
run u ((ss, w) ∷ ws) n = run u ws (handle u ss w n).1

abbrev pub run_view : List (List PeerStep × Write) → View → View
run_view [] m = m
run_view ((ss, w) ∷ ws) m = run_view ws (write_view w m)

abbrev pub ArePlain : List (List PeerStep × Write) → Type 0
ArePlain [] = Unit {0}
ArePlain ((ss, w) ∷ ws) = IsPlain w × ArePlain ws

-- Enough of these peers take each write.
abbrev pub AreTaken : List Str → List (List PeerStep × Write) → Type 0
AreTaken peers [] = Unit {0}
AreTaken peers ((ss, w) ∷ ws) = Taken ss peers × AreTaken peers ws

pub none-AreTaken : (ws : List (List PeerStep × Write)) → AreTaken [] ws
none-AreTaken [] = tt
none-AreTaken ((ss, w) ∷ ws) = (inl refl, none-AreTaken ws)

run-view :
    (u : Unmarshal) (ws : List (List PeerStep × Write)) (n : Node)
    → IsSettled n
    → AreTaken n.raft.peers ws
    → ArePlain ws
    → suc (length n.raft.logs + length ws) < two_63
    → ((j : Str) → Machine.get (run u ws n).kv j ≡ run_view ws (Machine.get n.kv) j)
      × IsSettled (run u ws n)
unfolding run
run-view u [] n h t p b = (λ j. refl, h)
run-view u ((ss, w) ∷ ws) n h t p b =
    let r = handle-Writes u ss w n h t.0 p.0 (omega arith) in
    let next : AreTaken (handle u ss w n).1.raft.peers ws =
      subst (λ peers. AreTaken peers ws) (sym r.same_peers) t.1 in
    let (views, settled) =
      run-view u ws (handle u ss w n).1 r.stays_settled next p.1 (omega (arith, r.logs_one)) in
    (λ j. views j ∙ ap (λ m. run_view ws m j) (fun_ext r.stores), settled)

-- Take a leader whose log counts from 1, is committed and is applied but for at most its last
-- entry. After any history of Sets and Deletes with keys and values that hold no colon, each with
-- any schedule of its replication phase in which enough peers take it, or with no peers at all, a
-- Get replies with the value that the history of the map has for the key. The log stays shorter
-- than 2^63 - 1 entries.
pub get-run :
    (u : Unmarshal) (ws : List (List PeerStep × Write)) (n : Node) (key : Str)
    → IsSettled n
    → AreTaken n.raft.peers ws
    → ArePlain ws
    → suc (length n.raft.logs + length ws) < two_63
    → get key (run u ws n) ≡ found (run_view ws (Machine.get n.kv) key)
unfolding get
get-run u ws n key h t p b =
    let (views, (a, settled)) = run-view u ws n h t p b in rw settled.leads (ap found (views key))
