-- ===== src/Client/Supervision.antt =====
-- bin/client/src/lib.rs, `run`, with `run` of bridge.rs and coordinator.rs, `process_swarm` and crates/common:
-- the client's tasks, the token that stops them, and who waits for whom. When `run` returns, `main` returns
-- too and drops the tasks that still run; here they go on, so that what the token does to them shows.
pub mod Outcome
pub mod Settles
pub mod Quiet
use gozara.Base.{
  ℕ, zero, suc, ◌+◌, String, List, [], ◌∷◌, Bool, true, false, ◌&&◌, ◌||◌, not, Option, none, some,
  Result, ok, err, if◌then◌else◌,
}

-- A spawned task, as its `JoinHandle` tells.
pub data Task : Type 0 where
  running exited panicked : Task

-- The tasks: `waiter` is that of `wait_for_shutdown_signal`, `server` and `messages` are those that the
-- bridge spawns, and `bridge` is the one that waits for them.
pub data Name : Type 0 where
  waiter swarm coordinator server messages bridge : Name

-- The handles that `run` selects from.
pub data Watched : Type 0 where
  swarm_jh coord_jh bridge_jh : Watched

-- `outcome` is what `run` has returned: on an error, the task that it names.
pub record Client : Type 0 where
  pub cancelled : Bool
  pub waiter_task : Task
  pub swarm_task : Task
  pub coordinator_task : Task
  pub server_task : Task
  pub messages_task : Task
  pub bridge_task : Task
  pub outcome : Option (Result Watched (Unit {0}))

unfoldable pub client_new : Client
client_new = record {
  cancelled = false;
  waiter_task = running;
  swarm_task = running;
  coordinator_task = running;
  server_task = running;
  messages_task = running;
  bridge_task = running;
  outcome = none;
}

abbrev pub is_running : Task → Bool
is_running running = true
is_running exited = false
is_running panicked = false

abbrev pub task_of : Name → Client → Task
task_of waiter s = s.waiter_task
task_of swarm s = s.swarm_task
task_of coordinator s = s.coordinator_task
task_of server s = s.server_task
task_of messages s = s.messages_task
task_of bridge s = s.bridge_task

abbrev pub end_task : Name → Task → Client → Client
end_task waiter t s = record s { waiter_task = t }
end_task swarm t s = record s { swarm_task = t }
end_task coordinator t s = record s { coordinator_task = t }
end_task server t s = record s { server_task = t }
end_task messages t s = record s { messages_task = t }
end_task bridge t s = record s { bridge_task = t }

abbrev pub watched : Watched → Client → Task
watched swarm_jh s = s.swarm_task
watched coord_jh s = s.coordinator_task
watched bridge_jh s = s.bridge_task

-- What has arrived of the signals, and the name that `biased` chooses.
pub record Signals : Type 0 where
  pub ctrl_c : Bool
  pub sigterm : Bool
  pub sigint : Bool
  pub sighup : Bool

unfoldable pub shutdown_signal : Signals → Option String
shutdown_signal p =
    if p.ctrl_c
    then some "CTRL+C"
    else if p.sigterm
    then some "SIGTERM"
    else if p.sigint
    then some "SIGINT"
    else if p.sighup
    then some "SIGHUP"
    else none

-- What a task that waits does next: `wakes` is the branch of its `select!` for the token, a closed channel or
-- the handles it holds, for the server the end of its graceful shutdown once its connections have ended,
-- and `returns` is a branch of `run`.
pub data Poll : Type 0 where
  wakes : Name → Poll
  returns : Watched → Poll

-- A channel closes when the task that holds its senders ends: the coordinator's to the swarm task and
-- to the bridge, the swarm task's to the coordinator, and the one that the server and the bridge's
-- message task share.
unfoldable pub is_ready : Client → Poll → Bool
is_ready s (wakes waiter) = is_running s.waiter_task && s.cancelled
is_ready s (wakes swarm) =
    is_running s.swarm_task && (s.cancelled || not (is_running s.coordinator_task))
is_ready s (wakes coordinator) =
    is_running s.coordinator_task
    && (s.cancelled
        || not (is_running s.swarm_task)
        || not (is_running s.server_task || is_running s.messages_task))
is_ready s (wakes server) = is_running s.server_task && s.cancelled
is_ready s (wakes messages) =
    is_running s.messages_task && (s.cancelled || not (is_running s.coordinator_task))
is_ready s (wakes bridge) =
    is_running s.bridge_task && not (is_running s.server_task && is_running s.messages_task)
is_ready s (returns w) = elim s.outcome [ none ↦ not (is_running (watched w s)) | some _ ↦ false ]

-- `match r { Ok(_) => Ok(()), Err(e) => Err(..) }`
unfoldable pub result_of : Watched → Task → Result Watched (Unit {0})
result_of w running = ok tt
result_of w exited = ok tt
result_of w panicked = err w

unfoldable pub act : Client → Poll → Client
act s (wakes bridge) = record s { cancelled = true; bridge_task = exited }
act s (wakes n) = end_task n exited s
act s (returns w) = record s { cancelled = true; outcome = some (result_of w (watched w s)) }

unfoldable pub poll : Client → Poll → Client
poll s p = if is_ready s p then act s p else s

-- What happens to the client: a poll, signals that have arrived, or a task that ends or panics on its own, such
-- as a server that fails, a coordinator whose incoming streams end, or a handler that cannot be installed.
pub data Event : Type 0 where
  polled : Poll → Event
  signalled : Signals → Event
  ends : Name → Event
  panics : Name → Event

unfoldable pub wait_for_shutdown_signal : Signals → Client → Client
wait_for_shutdown_signal p s =
    if is_running s.waiter_task
    then (elim (shutdown_signal p) [
      | none ↦ s
      | some _ ↦ record s { cancelled = true; waiter_task = exited }
    ])
    else s

unfoldable pub end_now : Name → Task → Client → Client
end_now n t s = if is_running (task_of n s) then end_task n t s else s

unfoldable pub react : Client → Event → Client
react s (polled p) = poll s p
react s (signalled p) = wait_for_shutdown_signal p s
react s (ends n) = end_now n exited s
react s (panics n) = end_now n panicked s

unfoldable pub react_all : Client → List Event → Client
react_all s [] = s
react_all s (e ∷ rest) = react_all (react s e) rest
