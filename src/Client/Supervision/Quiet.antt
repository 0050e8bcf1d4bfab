-- ===== src/Client/Supervision/Quiet.antt =====
-- bin/client/src/lib.rs, `run`: a client that comes to rest has stopped, or all of it runs.
use gozara.Base.{
  ◌+◌, ◌≤◌, ◌≡◌, ◌≢◌, refl, List, [], ◌∷◌, map, length, true, false, Option, none, some, Result, ok,
  err, inl, inr, ◌⊎◌, arith, Bool-cases,
}
use gozara.Client.Supervision.{
  Client, waiter, swarm, coordinator, server, messages, bridge, Watched, swarm_jh, coord_jh,
  bridge_jh, Poll, wakes, returns, Event, polled, is_running, is_ready, act, poll, react, react_all,
  client_new,
}
use gozara.Client.Supervision.Outcome.{
  Explains, IsExplained, react-IsExplained, react_all-IsExplained,
}
use gozara.Client.Supervision.Settles.{
  IsQuiet, HasReady, HasReady-or-IsQuiet, left, poll-left, left_max,
}

-- Every task has ended, the token is cancelled and `run` has returned.
abbrev pub HasStopped : Client → Type 0
HasStopped s =
    (s.cancelled ≡ true)
    × (is_running s.waiter_task ≡ false)
    × (is_running s.swarm_task ≡ false)
    × (is_running s.coordinator_task ≡ false)
    × (is_running s.server_task ≡ false)
    × (is_running s.messages_task ≡ false)
    × (is_running s.bridge_task ≡ false)
    × (s.outcome ≢ none)

-- The token is not cancelled, and every task runs but for the one that waits for signals.
abbrev pub IsUp : Client → Type 0
IsUp s =
    (s.cancelled ≡ false)
    × (is_running s.swarm_task ≡ true)
    × (is_running s.coordinator_task ≡ true)
    × (is_running s.server_task ≡ true)
    × (is_running s.messages_task ≡ true)
    × (is_running s.bridge_task ≡ true)
    × (s.outcome ≡ none)

outcome-cancelled : (s : Client) → IsExplained s → s.cancelled ≡ false → s.outcome ≡ none
outcome-cancelled s h off = go s.outcome h
  where
    go : (o : Option (Result Watched (Unit {0}))) → Explains s o → o ≡ none
    go none k = refl
    go (some (ok u)) k = absurd (ground (arith, k, off))
    go (some (err w)) k = absurd (ground (arith, k.0, off))

quiet-HasStopped : (s : Client) → IsQuiet s → s.cancelled ≡ true → HasStopped s
unfolding is_ready
quiet-HasStopped s quiet on = (
  on,
  ground (arith, quiet (wakes waiter), on),
  no_swarm,
  ground (arith, quiet (wakes coordinator), on),
  no_server,
  ground (arith, quiet (wakes messages), on),
  ground (arith, quiet (wakes bridge), no_server),
  λ e. ground (arith, quiet (returns swarm_jh), e, no_swarm),
)
  where
    no_swarm : is_running s.swarm_task ≡ false
    no_swarm = ground (arith, quiet (wakes swarm), on)

    no_server : is_running s.server_task ≡ false
    no_server = ground (arith, quiet (wakes server), on)

quiet-IsUp : (s : Client) → IsQuiet s → IsExplained s → s.cancelled ≡ false → IsUp s
unfolding is_ready
quiet-IsUp s quiet h off = (
  off,
  ground (arith, quiet (returns swarm_jh), no_outcome),
  ground (arith, quiet (returns coord_jh), no_outcome),
  ground (arith, quiet (wakes bridge), bridge_runs),
  ground (arith, quiet (wakes bridge), bridge_runs),
  bridge_runs,
  no_outcome,
)
  where
    no_outcome : s.outcome ≡ none
    no_outcome = outcome-cancelled s h off

    bridge_runs : is_running s.bridge_task ≡ true
    bridge_runs = ground (arith, quiet (returns bridge_jh), no_outcome)

-- What a poll has ended or cancelled stays so.
act-IsUp : (s : Client) (p : Poll) → is_ready s p ≡ true → IsUp (act s p) → ⊥
unfolding act is_ready
act-IsUp s (wakes waiter) go up = ground (arith, go, up.0)
act-IsUp s (wakes swarm) go up = ground (arith, go, up)
act-IsUp s (wakes coordinator) go up = ground (arith, go, up)
act-IsUp s (wakes server) go up = ground (arith, go, up.0)
act-IsUp s (wakes messages) go up = ground (arith, go, up)
act-IsUp s (wakes bridge) go up = absurd (ground (arith, up.0))
act-IsUp s (returns w) go up = absurd (ground (arith, up.0))

poll-IsUp : (s : Client) (p : Poll) → IsUp (poll s p) → IsUp s
unfolding poll
poll-IsUp s p up = elim (Bool-cases (is_ready s p)) [
  | inl go ↦ absurd (act-IsUp s p go (rw (go, poll) at up))
  | inr stay ↦ rw (stay, poll) at up
]

-- Polls in some order.
abbrev pub polls_of : List Poll → List Event
polls_of polls = map polled polls

-- Each of the polls is ready when its turn comes.
abbrev pub AreReady : Client → List Poll → Type 0
AreReady s [] = Unit {0}
AreReady s (p ∷ ps) = (is_ready s p ≡ true) × AreReady (poll s p) ps

polls-left :
    (polls : List Poll) (s : Client)
    → AreReady s polls
    → length polls + left (react_all s (polls_of polls)) ≡ left s
unfolding react_all react
polls-left [] s h = omega arith
polls-left (p ∷ ps) s h = omega (arith, poll-left s p h.0, polls-left ps (poll s p) h.1)

polls-IsUp : (polls : List Poll) (s : Client) → IsUp (react_all s (polls_of polls)) → IsUp s
unfolding react_all react
polls-IsUp [] s up = up
polls-IsUp (p ∷ ps) s up = poll-IsUp s p (polls-IsUp ps (poll s p) up)

polls-IsExplained :
    (polls : List Poll) (s : Client) → IsExplained s → IsExplained (react_all s (polls_of polls))
unfolding react_all react
polls-IsExplained [] s h = h
polls-IsExplained (p ∷ ps) s h = polls-IsExplained ps (poll s p) (react-IsExplained s (polled p) h)

-- After any history of the client's tasks from its start on, in which tasks end or panic on
-- their own, signals arrive and the tasks that wait are polled in any order, a client in which
-- no poll is ready either has its token not cancelled, its swarm task, coordinator, server,
-- message task and bridge running and `run` waiting, or has stopped: the token is cancelled,
-- each task has ended and `run` has returned.
pub quiet-Rests :
    (history : List Event)
    → IsQuiet (react_all client_new history)
    → IsUp (react_all client_new history) ⊎ HasStopped (react_all client_new history)
quiet-Rests history quiet =
    let s = react_all client_new history in
    elim (Bool-cases s.cancelled) [
      | inl on ↦ inr (quiet-HasStopped s quiet on)
      | inr off ↦ inl (quiet-IsUp s quiet (react_all-IsExplained history) off)
    ]

-- After any history of the client's tasks from its start on that has not left its token
-- uncancelled with the swarm task, coordinator, server, message task and bridge running and
-- `run` waiting, polls that are ready one after the other, in whatever order, are at most seven,
-- and behind them another poll is ready or the client has stopped: the token is cancelled, each
-- task has ended and `run` has returned. The server's poll counts as ready once the token is
-- cancelled, which supposes that its open connections end.
pub polls-HasStopped :
    (history : List Event) (polls : List Poll)
    → ¬ IsUp (react_all client_new history)
    → AreReady (react_all client_new history) polls
    → (length polls ≤ 7)
      × (HasReady (react_all (react_all client_new history) (polls_of polls))
          ⊎ HasStopped (react_all (react_all client_new history) (polls_of polls)))
polls-HasStopped history polls down ready =
    let s = react_all client_new history in
    let t = react_all s (polls_of polls) in
    (
      omega (arith, polls-left polls s ready, left_max s),
      elim (HasReady-or-IsQuiet t) [
        | inl found ↦ inl found
        | inr quiet ↦ elim (Bool-cases t.cancelled) [
          | inl on ↦ inr (quiet-HasStopped t quiet on)
          | inr off ↦ absurd (
              down (
                polls-IsUp polls s (
                  quiet-IsUp t quiet (polls-IsExplained polls s (react_all-IsExplained history))
                    off)))
        ]
      ],
    )
