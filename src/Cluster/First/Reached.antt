-- ===== src/Cluster/First/Reached.antt =====
-- A new cluster and its first write (ddbr-server/infra/replication.go with raft_state_machine.go).
use ddbr.Common.{
  ℕ, suc, ◌≡◌, refl, sym, subst, ap, ◌∙◌, false, List, [], ◌∷◌, map, Option, none, some, length,
  inl, inr, Bool-cases,
}
use ddbr.Common.Eq.{Str, str_Eq}
use ddbr.Common.Int.{ℤ, pos, ◌≤ℤ◌}
use ddbr.Common.Dict.{lookup}
use ddbr.Common.Result.{err}
use ddbr.Entry.{LogEntry, new_entry, last_term}
use ddbr.Hosts.{contains, Distinct}
use ddbr.RaftState.{RaftState}
use ddbr.Replication.{commit_request}
use ddbr.Service.{WriteResp}
use ddbr.Service.Append.{added}
use ddbr.Election.Append.{UnmarshalEntry}
use ddbr.Cluster.{Peer, handle_append_entries, call_peer, call_peers, confirm}
use ddbr.Cluster.Calls.{address_of, All, All-kept, no_entries-logs}
use ddbr.Cluster.Lost.{IsServed}
use ddbr.Cluster.First.{Has, append_entries-no_later, Fits, Fits-one_ack, Fits-Has, Fits-kept}

-- The peer has the log `logs` of the leader, whose next index for it is the one after.
abbrev HasAt : RaftState → LogEntry → Peer → Type 0
HasAt rs entry m = Has rs.current_term entry m × (lookup m.address rs.next_index ≡ some (pos 2))

All-map :
    (P Q : Peer → Type 0) (f : Peer → Peer)
    → ((m : Peer) → P m → Q (f m))
    → (ms : List Peer) → All P ms
    → All Q (map f ms)
All-map P Q f h [] ps = tt
All-map P Q f h (m ∷ ms) ps = (h m ps.0, All-map P Q f h ms ps.1)

Has-confirmed :
    (v : UnmarshalEntry) (now : ℕ) (entry : LogEntry) (rs : RaftState) (t : ℤ) (m : Peer)
    → rs.current_term ≡ t
    → Has t entry m
    → Has t entry (handle_append_entries v now (commit_request rs entry) m).1
unfolding handle_append_entries commit_request
Has-confirmed v now entry rs t m e h = record {
  no_later =
      subst
        (λ i. (handle_append_entries v now (commit_request rs entry) m).1.machine.current_term ≤ℤ i)
        e
        (append_entries-no_later v now (commit_request rs entry) m.machine
          (subst (λ i. m.machine.current_term ≤ℤ i) (sym e) h.no_later));
  logs = no_entries-logs v now (commit_request rs entry) m.machine refl ∙ h.logs;
}

pub confirm-Has :
    (v : UnmarshalEntry) (now : ℕ) (entry : LogEntry) (o : Option WriteResp) (rs : RaftState)
    (t : ℤ) (ms : List Peer)
    → rs.current_term ≡ t
    → All (Has t entry) ms
    → All (Has t entry) (confirm v now entry o rs ms)
confirm-Has v now entry none rs t ms e h = h
confirm-Has v now entry (some resp) rs t ms e h = elim (Bool-cases resp.success) [
  | inl sent ↦
      rw sent (All-map (Has t entry) (Has t entry) _ (λ m. Has-confirmed v now entry rs t m e) ms h)
  | inr unsent ↦ rw unsent h
]

confirmed-addresses :
    (v : UnmarshalEntry) (now : ℕ) (entry : LogEntry) (rs : RaftState) (ms : List Peer)
    → map address_of (map (λ m. (handle_append_entries v now (commit_request rs entry) m).1) ms)
      ≡ map address_of ms
unfolding handle_append_entries
confirmed-addresses v now entry rs [] = refl
confirmed-addresses v now entry rs (m ∷ ms) =
    ap (λ l. m.address ∷ l) (confirmed-addresses v now entry rs ms)

pub confirm-addresses :
    (v : UnmarshalEntry) (now : ℕ) (entry : LogEntry) (o : Option WriteResp) (rs : RaftState)
    (ms : List Peer)
    → map address_of (confirm v now entry o rs ms) ≡ map address_of ms
confirm-addresses v now entry none rs ms = refl
confirm-addresses v now entry (some resp) rs ms = elim (Bool-cases resp.success) [
  | inl sent ↦ rw sent (confirmed-addresses v now entry rs ms)
  | inr unsent ↦ rw unsent refl
]

-- A property of addresses
abbrev pub AllAt : (Str → Type 0) → List Str → Type 0
AllAt P [] = Unit {0}
AllAt P (a ∷ as') = P a × AllAt P as'

pub All-AllAt :
    (P : Str → Type 0) (ms : List Peer) → All (λ m. P m.address) ms → AllAt P (map address_of ms)
All-AllAt P [] h = tt
All-AllAt P (m ∷ ms) h = (h.0, All-AllAt P ms h.1)

pub AllAt-All :
    (P : Str → Type 0) (ms : List Peer) → AllAt P (map address_of ms) → All (λ m. P m.address) ms
AllAt-All P [] h = tt
AllAt-All P (m ∷ ms) h = (h.0, AllAt-All P ms h.1)

-- A peer with the entry is in sync with a leader's log of the entry, marked.
pub Has-IsServed :
    (cmd : Str) (rs : RaftState) (ms : List Peer)
    → rs.logs ≡ added rs.current_term 0 cmd ∷ []
    → All (Has rs.current_term (new_entry rs.current_term (pos 1) cmd)) ms
    → All (λ m. lookup m.address rs.next_index ≡ some (pos 2)) ms
    → All (IsServed rs) ms
unfolding last_term
Has-IsServed cmd rs [] l h k = tt
Has-IsServed cmd rs (m ∷ ms) l h k = (
  (
    k.0 ∙ ap (λ x. some (pos (suc (length x)))) (sym l),
    record {
      no_later = h.0.no_later;
      as_long = ap length h.0.logs ∙ ap length (sym l);
      same_term = ap last_term h.0.logs ∙ ap last_term (sym l);
    },
  ),
  Has-IsServed cmd rs ms l h.1 k.1,
)

module _ (v : UnmarshalEntry) (now : ℕ) (t : ℤ) (cmd x : Str) (no_json : v cmd ≡ err x) where
  abbrev pub e : LogEntry
  e = new_entry t (pos 1) cmd

  pub still :
      (rs : RaftState) (m : Peer) (ms : List Peer)
      → Fits v now t cmd x no_json rs m
      → All (Fits v now t cmd x no_json rs) ms
      → contains (map address_of ms) m.address ≡ false
      → All (Fits v now t cmd x no_json (call_peer v now e rs m).1) ms
  still =
      All-kept v now e (Fits v now t cmd x no_json) (λ m. e ∷ [])
        (Fits-one_ack v now t cmd x no_json)
        (λ rs m f. (Fits-Has v now t cmd x no_json rs m f).0.logs) (Fits-kept v now t cmd x no_json)

  pub calls-Has :
      (rs : RaftState) (ms : List Peer)
      → Distinct (map address_of ms)
      → All (Fits v now t cmd x no_json rs) ms
      → All (Has t e) (call_peers v now e rs ms).2
        × (map address_of (call_peers v now e rs ms).2 ≡ map address_of ms)
  unfolding call_peers
  calls-Has rs [] d fs = (tt, refl)
  calls-Has rs (m ∷ ms) d fs =
      let rs' = (call_peer v now e rs m).1 in
      let (has, address) = Fits-Has v now t cmd x no_json rs m fs.0 in
      let (rest, addresses) = calls-Has rs' ms d.1 (still rs m ms fs.0 fs.1 d.0) in
      ((has, rest), rw (address, addresses) refl)
