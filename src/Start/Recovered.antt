-- ===== src/Start/Recovered.antt =====
-- What the recovery of a starting server leaves alone (ddbr-server/infra/init_manager.go).
use ddbr.Common.{
  ◌≡◌, refl, ◌∙◌, Bool, true, false, List, [], ◌∷◌, Option, none, some, if◌then◌else◌,
}
use ddbr.Common.Eq.{Str, str_Eq, ◌==◌}
use ddbr.Common.Int.{ℤ, ltb_ℤ}
use ddbr.Common.Result.{Result, ok, err}
use ddbr.Entry.{LogEntry}
use ddbr.Kv.Command.{ApplyError, Unmarshal}
use ddbr.Kv.Machine.{StateMachine, apply_log}
use ddbr.RaftState.{RaftState}
use ddbr.Recovery.{
  Host, UnmarshalState, PersistentState, recover_from_storage, replay, replay_logs, mark_replayed,
  restored, load, read_file,
}
use ddbr.Start.{Server, Files, initialize_raft_state, with_directory, from_host, to_host}

-- The role of a node in its Raft state, and its id
abbrev pub SameRole : RaftState → RaftState → Type 0
SameRole r s = (s.is_master ≡ r.is_master) × (s.node_id ≡ r.node_id)

SameRole-trans : (r s t : RaftState) → SameRole r s → SameRole s t → SameRole r t
SameRole-trans r s t (a, b) (c, d) = (c ∙ a, d ∙ b)

mark-SameRole :
    (o : Result ApplyError Str) (e : LogEntry) (r : RaftState) → SameRole r (mark_replayed o e r)
mark-SameRole (ok x) e r = (refl, refl)
mark-SameRole (err x) e r = (refl, refl)

if-SameRole :
    (b : Bool) (r : RaftState) (x y : RaftState × StateMachine)
    → SameRole r x.0
    → SameRole r y.0
    → SameRole r (if b then x else y).0
if-SameRole true r x y h k = h
if-SameRole false r x y h k = k

replay-SameRole :
    (u : Unmarshal) (a : ℤ) (es : List LogEntry) (s : RaftState × StateMachine)
    → SameRole s.0 (replay u a es s).0
unfolding replay
replay-SameRole u a [] s = (refl, refl)
replay-SameRole u a (e ∷ es) (r, kv) =
    let done : RaftState × StateMachine =
      (mark_replayed (apply_log u e kv).0 e r, (apply_log u e kv).1) in
    let s : RaftState × StateMachine = if ltb_ℤ a e.index then done else (r, kv) in
    SameRole-trans r s.0 (replay u a es s).0
      (if-SameRole (ltb_ℤ a e.index) r done (r, kv) (mark-SameRole (apply_log u e kv).0 e r)
        (refl, refl))
      (replay-SameRole u a es s)

replay_logs-SameRole :
    (u : Unmarshal) (es : List LogEntry) (s : RaftState × StateMachine)
    → SameRole s.0 (replay_logs u es s).0
unfolding replay_logs
replay_logs-SameRole u [] s = (refl, refl)
replay_logs-SameRole u (e ∷ es) (r, kv) = replay-SameRole u r.last_applied (e ∷ es) (r, kv)

load-SameRole :
    (u : Unmarshal) (o : Result Str PersistentState) (h : Host)
    → SameRole h.raft (load u o h).1.raft
load-SameRole u (err x) h = (refl, refl)
load-SameRole u (ok s) h =
    let r = restored s h.raft in
    if-SameRole h.is_master h.raft (replay_logs u s.logs (r, h.kv)) (r, h.kv)
      (replay_logs-SameRole u s.logs (r, h.kv)) (refl, refl)

read-SameRole :
    (u : Unmarshal) (v : UnmarshalState) (o : Option Str) (h : Host)
    → SameRole h.raft (read_file u v o h).1.raft
read-SameRole u v none h = (refl, refl)
read-SameRole u v (some x) h = load-SameRole u (v x) h

recover-SameRole :
    (u : Unmarshal) (v : UnmarshalState) (readable : Bool) (h : Host)
    → SameRole h.raft (recover_from_storage u v readable h).1.raft
unfolding recover_from_storage
recover-SameRole u v true h = read-SameRole u v h.file h
recover-SameRole u v false h = (refl, refl)

-- A server whose state is initialised, as a new one leaves it: the same role and configuration.
pub record IsInitialized (s t : Server) : Type 0 where
  pub same_role : SameRole s.raft t.raft
  pub same_config : t.config ≡ s.config
  pub same_joined : t.has_joined_cluster ≡ s.has_joined_cluster
  pub is_init : t.is_init ≡ true

IsInitialized-if :
    (b : Bool) (s t : Server)
    → s.is_init ≡ b
    → IsInitialized s t
    → IsInitialized s (if b then s else t)
IsInitialized-if true s t e h = record {
  same_role = (refl, refl);
  same_config = refl;
  same_joined = refl;
  is_init = e;
}
IsInitialized-if false s t e h = h

with_directory-same :
    (s : Server)
    → SameRole s.raft (with_directory s).raft
      × ((with_directory s).config ≡ s.config)
      × ((with_directory s).has_joined_cluster ≡ s.has_joined_cluster)
with_directory-same s = go (s.raft.data_dir == [])
  where
    go :
        (b : Bool)
        → let t =
            if b
            then record s { raft = record s.raft { data_dir = s.data_path } }
            else record s { data_path = s.raft.data_dir } in
          SameRole s.raft t.raft
          × (t.config ≡ s.config)
          × (t.has_joined_cluster ≡ s.has_joined_cluster)
    go true = ((refl, refl), refl, refl)
    go false = ((refl, refl), refl, refl)

pub initialize-IsInitialized :
    (u : Unmarshal) (v : UnmarshalState) (files : Files) (s : Server)
    → IsInitialized s (initialize_raft_state u v files s)
unfolding initialize_raft_state
initialize-IsInitialized u v files s =
    let d = with_directory s in
    let (role, config, joined) = with_directory-same s in
    let h = (recover_from_storage u v files.readable (to_host d)).1 in
    IsInitialized-if s.is_init s (from_host h d) refl (record {
      same_role =
          SameRole-trans s.raft d.raft h.raft role
            (recover-SameRole u v files.readable (to_host d));
      same_config = config;
      same_joined = joined;
      is_init = refl;
    })
