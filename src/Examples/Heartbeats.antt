-- ===== src/Examples/Heartbeats.antt =====
-- Examples for the heartbeats of a leader (ddbr-server/infra/raft_state_machine.go).
use ddbr.Common.{true, ◌≡◌, refl, false, List, [], ◌∷◌, arith}
use ddbr.Common.Eq.{Str, bytes, str_Eq}
use ddbr.Common.Int.{ℤ, pos, ◌≤ℤ◌, half}
use ddbr.Election.{RaftStateMachine, leader, follower, is_leader}
use ddbr.Election.Append.{append_entries, reply}
use ddbr.Election.Loop.{step, next_event}
use ddbr.Election.Heartbeats.{heartbeat_request, start_heartbeats, send_heartbeats}
use ddbr.Election.Heartbeats.Quiet.{
  Moment, beat, fired, handled, begun, moments, AreCalm, moments-calm,
}
use ddbr.Election.Heartbeats.Stale.{StoodDown, take_answer, stale_heartbeat-followers}
use ddbr.Election.Heartbeats.Own.{IsSent, own_heartbeat-follower}
use ddbr.Election.Update.{update_cluster_info, with_port}
use ddbr.Examples.Election.{node, plain_text}

abbrev leading : ℤ → RaftStateMachine
leading term = record node { node_id = pos 8; state = leader; current_term = term }

-- The loop of startHeartbeats ends at the first state that it sees and that does not lead.
start_heartbeats_test :
    start_heartbeats (leading (pos 4)) ((node, leading (pos 4)) ∷ [])
    ≡ send_heartbeats (leading (pos 4))
unfolding start_heartbeats
start_heartbeats_test = refl

abbrev course : List Moment
course = beat 100 ∷ handled 110 ∷ fired 600 ∷ begun 550 ∷ beat 600 ∷ fired 1100 ∷ []

moments-calm_example :
    let (os, f) = moments plain_text (leading (pos 4)) course node in
    AreCalm (leading (pos 4)) os
    × (f.current_term ≤ℤ pos 4)
    × (is_leader f.state ≡ false)
    × (f.logs ≡ node.logs)
    × (f.commit_index ≡ pos 0)
unfolding half
moments-calm_example =
    moments-calm plain_text (leading (pos 4)) course node (omega arith) refl tt
      (omega arith, (omega arith, (omega arith, (omega arith, tt))))

stale_heartbeat-followers_example :
    let (r, f) =
      append_entries plain_text 5 (heartbeat_request (leading (pos 4))) (leading (pos 6)) in
    let t = (step plain_text (next_event 6) f).1 in
    StoodDown (pos 6) (take_answer (leading (pos 4)) r)
    × (t.state ≡ follower)
    × (t.current_term ≡ pos 6)
    × (t.logs ≡ node.logs)
stale_heartbeat-followers_example =
    stale_heartbeat-followers plain_text 5 6 (leading (pos 4)) (leading (pos 6)) (omega arith) refl

-- The leader's own host is "a".
abbrev hosts : List Str
hosts = bytes "a" ∷ bytes "b" ∷ []

own_heartbeat-follower_example :
    let l = update_cluster_info hosts (leading (pos 4)) in
    let (r, l') = append_entries plain_text 5 (heartbeat_request l) l in
    let t = (step plain_text (next_event 6) l').1 in
    IsSent (bytes "a:8080") (heartbeat_request l) (send_heartbeats l)
    × (r ≡ reply true (pos 4))
    × (t.state ≡ follower)
    × (t.current_term ≡ pos 4)
    × (t.is_master ≡ false)
unfolding with_port ddbr.Common.Text.contains ddbr.Hosts.contains ddbr.Common.Eq.str_eq
own_heartbeat-follower_example =
    own_heartbeat-follower plain_text 5 6 hosts (bytes "a") (leading (pos 4)) refl refl
