-- ===== src/Examples/Clients.antt =====
-- bin/client/src/lib.rs and main.rs: a client that is started, stopped, and one whose coordinator panics.
use gozara.Base.{◌≤◌, ◌≡◌, refl, length, List, [], ◌∷◌, true, false, some, err, ◌⊎◌, string_eq}
use gozara.Client.Config.{Config}
use gozara.Client.Supervision.{
  running, waiter, swarm, coordinator, server, messages, bridge, swarm_jh, coord_jh, bridge_jh,
  Poll, wakes, returns, Event, polled, signalled, panics, client_new, react_all, react, is_ready,
  poll, act, wait_for_shutdown_signal, shutdown_signal, end_now, result_of,
}
use gozara.Client.Supervision.Settles.{IsQuiet, HasReady}
use gozara.Client.Supervision.Quiet.{
  IsUp, HasStopped, AreReady, polls_of, quiet-Rests, polls-HasStopped,
}
use gozara.Client.Supervision.Outcome.{IsExplained, react_all-IsExplained}

-- A control-C, and the polls that follow it.
abbrev stopped_history : List Event
stopped_history =
    signalled (record { ctrl_c = true; sigterm = false; sigint = true; sighup = false })
    ∷ polled (wakes swarm)
    ∷ polled (wakes messages)
    ∷ polled (wakes coordinator)
    ∷ polled (returns swarm_jh)
    ∷ polled (wakes server)
    ∷ polled (wakes bridge)
    ∷ []

stopped_history-IsQuiet : IsQuiet (react_all client_new stopped_history)
unfolding react_all react client_new poll act is_ready wait_for_shutdown_signal shutdown_signal
    result_of
stopped_history-IsQuiet (wakes waiter) = refl
stopped_history-IsQuiet (wakes swarm) = refl
stopped_history-IsQuiet (wakes coordinator) = refl
stopped_history-IsQuiet (wakes server) = refl
stopped_history-IsQuiet (wakes messages) = refl
stopped_history-IsQuiet (wakes bridge) = refl
stopped_history-IsQuiet (returns swarm_jh) = refl
stopped_history-IsQuiet (returns coord_jh) = refl
stopped_history-IsQuiet (returns bridge_jh) = refl

quiet-Rests_example :
    IsUp (react_all client_new stopped_history) ⊎ HasStopped (react_all client_new stopped_history)
quiet-Rests_example = quiet-Rests stopped_history stopped_history-IsQuiet

-- The coordinator panics, and `run` sees it before any other task wakes.
abbrev panic_history : List Event
panic_history = panics coordinator ∷ polled (returns coord_jh) ∷ []

-- `run` has returned while the server still serves.
left_behind :
    ((react_all client_new panic_history).outcome ≡ some (err coord_jh))
    × ((react_all client_new panic_history).server_task ≡ running)
unfolding react_all react client_new poll act is_ready end_now result_of
left_behind = (refl, refl)

panic_history_down : ¬ IsUp (react_all client_new panic_history)
unfolding react_all react client_new poll act is_ready end_now result_of
panic_history_down up = absurd (cc (up.0))

-- The other tasks end, the last ones to be created first.
abbrev late_polls : List Poll
late_polls = wakes messages ∷ wakes server ∷ wakes bridge ∷ wakes swarm ∷ wakes waiter ∷ []

panic_history_settles : AreReady (react_all client_new panic_history) late_polls
unfolding react_all react client_new poll act is_ready end_now result_of
panic_history_settles = (refl, (refl, (refl, (refl, (refl, tt)))))

polls-HasStopped_example :
    (length late_polls ≤ 7)
    × (HasReady (react_all (react_all client_new panic_history) (polls_of late_polls))
        ⊎ HasStopped (react_all (react_all client_new panic_history) (polls_of late_polls)))
polls-HasStopped_example =
    polls-HasStopped panic_history late_polls panic_history_down panic_history_settles

react_all-IsExplained_example : IsExplained (react_all client_new panic_history)
react_all-IsExplained_example = react_all-IsExplained panic_history

abbrev pub home : Config
home = record {
  grpc_addr = "[::]:50051";
  key_file = some "./key.secret";
  bootnode_peer_id = "boot";
  bootnode_ip_addr = "9.9.9.9";
  bootnode_port = "20201";
  external_ip_addr = "8.8.8.8";
  external_port = "4001";
  zone = "ME";
}
