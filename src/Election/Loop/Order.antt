-- ===== src/Election/Loop/Order.antt =====
-- Executions of a node (ddbr-server/infra/raft_state_machine.go): the run loop finishes the vote
-- request that it has begun before it takes anything else, and the sections of other goroutines may
-- come in between.
use ddbr.Common.{◌≡◌, refl, Option, none, some}
use ddbr.Election.Loop.{
  VoteSection, Output, silent, voted, started, answered, goes_on, Input, timer, timed_out,
  vote_section, next_event, vote_asked, vote_answered, entries_sent, heartbeat_answer, vote_begun,
  leader_check, cluster_known, config_given, log_applied,
}

-- What the loop has still to run of a vote request; `none` where it waits for a timer or an event.
abbrev pub Handling : Type 0
Handling = Option VoteSection

-- The section that comes next: while a vote request is handled the loop takes neither a timer nor
-- an event, and its turn, `next_event`, goes to the request's next section.
unfoldable pub section_of : Handling → Input → Option Input
section_of none (vote_section s) = none
section_of none i = some i
section_of (some s) (timer now) = none
section_of (some s) timed_out = none
section_of (some s) (vote_section s') = none
section_of (some s) (next_event now) = some (vote_section s)
section_of (some s) i = some i

abbrev pub handling_after : Handling → Output → Handling
handling_after h silent = h
handling_after h (voted channel req resp) = none
handling_after h (started term candidate reqs) = h
handling_after h (answered resp) = h
handling_after h (goes_on s) = some s

-- A section of the loop's own is due only in its place.
abbrev pub IsDue : Handling → Input → Type 0
IsDue h (timer now) = h ≡ none
IsDue h timed_out = h ≡ none
IsDue h (next_event now) = h ≡ none
IsDue h (vote_section s) = h ≡ some s
IsDue h i = Unit {0}

abbrev pub AllDue : Handling → Option Input → Type 0
AllDue h none = Unit {0}
AllDue h (some i) = IsDue h i

pub section_of-AllDue : (h : Handling) (i : Input) → AllDue h (section_of h i)
unfolding section_of
section_of-AllDue none (timer now) = refl
section_of-AllDue none timed_out = refl
section_of-AllDue none (vote_section s') = tt
section_of-AllDue none (next_event now) = refl
section_of-AllDue none (vote_asked channel req) = tt
section_of-AllDue none (vote_answered term granted) = tt
section_of-AllDue none (entries_sent now req) = tt
section_of-AllDue none (heartbeat_answer term resp) = tt
section_of-AllDue none (vote_begun now) = tt
section_of-AllDue none (leader_check now peers) = tt
section_of-AllDue none (cluster_known hosts) = tt
section_of-AllDue none (config_given config) = tt
section_of-AllDue none (log_applied v kv) = tt
section_of-AllDue (some s) (timer now) = tt
section_of-AllDue (some s) timed_out = tt
section_of-AllDue (some s) (vote_section s') = tt
section_of-AllDue (some s) (next_event now) = refl
section_of-AllDue (some s) (vote_asked channel req) = tt
section_of-AllDue (some s) (vote_answered term granted) = tt
section_of-AllDue (some s) (entries_sent now req) = tt
section_of-AllDue (some s) (heartbeat_answer term resp) = tt
section_of-AllDue (some s) (vote_begun now) = tt
section_of-AllDue (some s) (leader_check now peers) = tt
section_of-AllDue (some s) (cluster_known hosts) = tt
section_of-AllDue (some s) (config_given config) = tt
section_of-AllDue (some s) (log_applied v kv) = tt
