-- ===== src/Kv/Apply.antt =====
-- ApplyLogToStateMachine (infra/state_machine.go) against the map that the store stands for.
use ddbr.Common.{
  List, [], ◌∷◌, ◌+◌, ◌≡◌, refl, [], ◌∷◌, ◌++◌, Option, none, some, arith, if◌then◌else◌, length,
  length-append, ap, ◌≢◌, ◌<◌,
}
use ddbr.Common.Eq.{Str, bytes, str_eq, str_eq_iff, str_Eq, ◌==◌}
use ddbr.Common.Int.{◌<ℤ◌}
use ddbr.Common.Dict.{insert, delete, lookup-insert, lookup-delete}
use ddbr.Common.Result.{ok, err}
use ddbr.Common.Text.{before, occurrences, before-append}
use ddbr.Entry.{LogEntry}
use ddbr.Kv.Command.{
  ApplyError, already_applied, invalid_set_format, Unmarshal, format_set, format_delete,
}
use ddbr.Kv.Machine.{StateMachine, get, apply_log, execute}
use ddbr.Kv.Format.{Plain, parse-format_set, parse-format_set_colon, parse-format_delete}

-- The map that a store stands for, and the writes that the service logs.
abbrev pub View : Type 0
View = Str → Option Str

pub data Write : Type 0 where
  put : Str → Str → Write
  drop_key : Str → Write

abbrev pub encode : Write → Str
encode (put k v) = format_set k v
encode (drop_key k) = format_delete k

abbrev pub IsPlain : Write → Type 0
IsPlain (put k v) = Plain k × Plain v
IsPlain (drop_key k) = Plain k

abbrev pub write_view : Write → View → View
write_view (put k v) m j = if k == j then some v else m j
write_view (drop_key k) m j = if k == j then none else m j

-- The log carries these writes, one after the other, without colons in keys and values.
abbrev pub Carries : List LogEntry → List Write → Type 0
Carries [] [] = Unit {0}
Carries (e ∷ es) (w ∷ ws) = (e.command ≡ encode w) × IsPlain w × Carries es ws
Carries _ _ = ⊥

abbrev pub write_all : List Write → View → View
write_all [] m = m
write_all (w ∷ ws) m = write_all ws (write_view w m)

-- An entry is applied at most once: the second time it is refused and changes nothing.
pub apply_log_twice :
    (u : Unmarshal) (e : LogEntry) (sm : StateMachine) {r : Str} {sm' : StateMachine}
    → apply_log u e sm ≡ (ok r, sm')
    → apply_log u e sm' ≡ (err (already_applied e.index), sm')
unfolding apply_log
apply_log_twice u e sm h = ground arith

-- A refused entry leaves the store and its index as they were.
pub apply_log_err :
    (u : Unmarshal) (e : LogEntry) (sm : StateMachine) {x : ApplyError} {sm' : StateMachine}
    → apply_log u e sm ≡ (err x, sm')
    → sm' ≡ sm
unfolding apply_log execute
apply_log_err u e sm h = ground arith

-- What a new entry with a command of the service does: the whole result.
apply_log-format_set :
    (u : Unmarshal) (k v : Str) (e : LogEntry) (sm : StateMachine)
    → sm.last_applied_index <ℤ e.index
    → e.command ≡ format_set k v
    → Plain k
    → Plain v
    → apply_log u e sm
      ≡ (ok (bytes "OK"), record { entries = insert k v sm.entries; last_applied_index = e.index })
unfolding apply_log execute str_eq
apply_log-format_set u k v e sm new c hk hv = ground (arith, parse-format_set u k v hk hv)

apply_log-format_delete :
    (u : Unmarshal) (k : Str) (e : LogEntry) (sm : StateMachine)
    → sm.last_applied_index <ℤ e.index
    → e.command ≡ format_delete k
    → apply_log u e sm ≡ (
      ok (bytes "OK"),
      record { entries = delete (before b':' k) sm.entries; last_applied_index = e.index },
    )
unfolding apply_log execute str_eq
apply_log-format_delete u k e sm new c = ground (arith, parse-format_delete u k)

before-Free : (s : Str) → Plain s → before b':' s ≡ s
unfolding before occurrences
before-Free [] h = refl
before-Free (x ∷ s) h = ground (arith, before-Free s)

-- A new entry that carries a plain write is accepted, does to the store what the write does to the
-- map, and becomes the last applied entry.
pub apply_log-write :
    (u : Unmarshal) (w : Write) (e : LogEntry) (sm : StateMachine)
    → sm.last_applied_index <ℤ e.index
    → e.command ≡ encode w
    → IsPlain w
    → let (r, sm') = apply_log u e sm in
      (r ≡ ok (bytes "OK"))
      × ((j : Str) → get sm' j ≡ write_view w (get sm) j)
      × (sm'.last_applied_index ≡ e.index)
unfolding get
apply_log-write u (put k v) e sm new c p =
    rw (apply_log-format_set u k v e sm new c p.0 p.1)
      (refl, λ j. lookup-insert k j v sm.entries, refl)
apply_log-write u (drop_key k) e sm new c p =
    rw (apply_log-format_delete u k e sm new c, before-Free k p)
      (refl, λ j. lookup-delete k j sm.entries, refl)

-- A set command with a colon in its key or value is refused.
pub apply_log-set_colon :
    (u : Unmarshal) (k v : Str) (e : LogEntry) (sm : StateMachine)
    → sm.last_applied_index <ℤ e.index
    → e.command ≡ format_set k v
    → 0 < occurrences b':' k + occurrences b':' v
    → apply_log u e sm ≡ (err (invalid_set_format (format_set k v)), sm)
unfolding apply_log
apply_log-set_colon u k v e sm new c h = ground (arith, parse-format_set_colon u k v h)

shorter-ne : (k rest : Str) → (k ++ b':' ∷ rest) ≢ k
shorter-ne k rest e = omega (arith, ap length e, length-append k (b':' ∷ rest))

-- The deletion, by a new entry, of a key with a colon removes another key, the part before the
-- first colon, and leaves the key that was meant alone.
pub apply_log-delete_colon :
    (u : Unmarshal) (k rest : Str) (e : LogEntry) (sm : StateMachine)
    → Plain k
    → sm.last_applied_index <ℤ e.index
    → e.command ≡ format_delete (k ++ b':' ∷ rest)
    → let sm' = (apply_log u e sm).1 in
      (get sm' k ≡ none) × (get sm' (k ++ b':' ∷ rest) ≡ get sm (k ++ b':' ∷ rest))
unfolding get
apply_log-delete_colon u k rest e sm p new c =
    rw (apply_log-format_delete u (k ++ b':' ∷ rest) e sm new c, before-append b':' k rest p)
      (
        ground (arith, lookup-delete k k sm.entries, str_eq_iff k k),
        ground (
          arith,
          lookup-delete k (k ++ b':' ∷ rest) sm.entries,
          str_eq_iff k (k ++ b':' ∷ rest),
          shorter-ne k rest,
        ),
      )
