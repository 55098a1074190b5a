-- ===== src/Examples/Service.antt =====
-- Examples for the handlers of Set, Delete and Get (ddbr-server/service/kv_impl.go).
use ddbr.Common.{◌≡◌, inl, inr, refl, true, List, [], ◌∷◌, arith, length}
use ddbr.Common.Eq.{bytes, str_Eq}
use ddbr.Common.Int.{pos}
use ddbr.Common.Text.{occurrences}
use ddbr.Entry.{LogEntry}
use ddbr.Kv.Command.{invalid_set_format, format_set, says_applied, parse}
use ddbr.Kv.Machine
use ddbr.Kv.Machine.{apply_log}
use ddbr.Kv.Apply.{Write, put, drop_key}
use ddbr.RaftState
use ddbr.Replication.{PeerStep, ask, answer, threshold}
use ddbr.Service.{Node, refuse, failed_to_replicate, get, set, found}
use ddbr.Service.Settled.{Settled, handle}
use ddbr.Service.Writes.{AreTaken, run, run_view, get-run}
use ddbr.Service.Stuck.{Stuck, handle-Stuck}
use ddbr.Service.Stuck.Colon.{set_colon-Stuck}
use ddbr.Examples.Kv.{no_json}
use ddbr.Examples.Logs.{first}

abbrev pub started : Node
started = record {
  is_master = true;
  raft = record RaftState.new { peers = bytes "b" ∷ bytes "c" ∷ [] };
  kv = Machine.new;
}

pub started-Settled : Settled started 0
started-Settled = record {
  leads = refl;
  counts = tt;
  commits = refl;
  applied = refl;
  kv_applied = refl;
  applied_le = omega arith;
  applied_ge = omega arith;
}

-- One of the two peers takes the entry.
abbrev b_takes : List PeerStep
b_takes = ask (bytes "b") ∷ answer (bytes "b") (record { term = pos 0; success = true }) ∷ []

abbrev pub history : List (List PeerStep × Write)
history = (b_takes, put (bytes "a") (bytes "1")) ∷ (b_takes, drop_key (bytes "a")) ∷ []

pub taken : AreTaken started.raft.peers history
unfolding threshold
taken = (inr (omega arith), (inr (omega arith), tt))

get-run_example :
    get (bytes "a") (run no_json history started)
    ≡ found (run_view history (Machine.get started.kv) (bytes "a"))
unfolding occurrences
get-run_example =
    get-run no_json history started (bytes "a") (0, started-Settled) taken
      ((refl, refl), (refl, tt)) (omega arith)

-- One write is in the log, and not yet in the store.
abbrev one_due : Node
one_due = record started { raft = record RaftState.new { logs = first ∷ []; commit_index = pos 1 } }

one_due-Settled : Settled one_due 0
one_due-Settled = record {
  leads = refl;
  counts = (refl, tt);
  commits = refl;
  applied = refl;
  kv_applied = refl;
  applied_le = omega arith;
  applied_ge = omega arith;
}

set_colon-Stuck_example :
    let x = invalid_set_format (format_set (bytes "k") (bytes "1:2")) in
    let (reply, n) = set no_json [] (bytes "k") (bytes "1:2") one_due in
    (reply ≡ refuse (failed_to_replicate x)) × (n.raft.commit_index ≡ pos 2) × Stuck no_json x n
unfolding occurrences says_applied format_set
set_colon-Stuck_example =
    set_colon-Stuck no_json [] (bytes "k") (bytes "1:2") one_due 0 one_due-Settled (inl refl) refl
      (omega arith) refl (omega arith)

abbrev bad : LogEntry
bad = record first { index = pos 2; command = bytes "set:k:1:2" }

abbrev blocked : Node
blocked = record started {
  raft = record RaftState.new { logs = first ∷ bad ∷ []; commit_index = pos 2 };
}

blocked-Stuck : Stuck no_json (invalid_set_format (bytes "set:k:1:2")) blocked
unfolding apply_log parse says_applied
blocked-Stuck = record {
  leads = refl;
  counts = (refl, (refl, tt));
  last = 0;
  applied = refl;
  due = bad;
  due_at = refl;
  refused = refl;
  unsaid = refl;
}

handle-Stuck_example :
    let x = invalid_set_format (bytes "set:k:1:2") in
    let (reply, n) = handle no_json [] (drop_key (bytes "a")) blocked in
    (reply ≡ refuse (failed_to_replicate x))
    × (n.kv ≡ blocked.kv)
    × (length n.raft.logs ≡ 3)
    × (n.raft.commit_index ≡ pos 3)
    × Stuck no_json x n
handle-Stuck_example =
    handle-Stuck no_json [] (drop_key (bytes "a")) blocked (invalid_set_format (bytes "set:k:1:2"))
      blocked-Stuck (inl refl) (omega arith)
