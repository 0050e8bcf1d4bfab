-- ===== src/Client/Supervision/Outcome.antt =====
-- bin/client/src/lib.rs, `run`: what its result says.
use gozara.Base.{
  subst, ◌≡◌, refl, sym, ◌∙◌, List, [], ◌∷◌, true, false, Option, none, some, Result, ok, err, inl,
  inr, arith, Option-cases, Bool-cases,
}
use gozara.Client.Supervision.{
  Client, Task, running, exited, panicked, Name, waiter, swarm, coordinator, server, messages,
  bridge, Watched, swarm_jh, coord_jh, bridge_jh, watched, Poll, wakes, returns, Signals, Event,
  polled, signalled, ends, panics, is_running, is_ready, act, poll, task_of, end_task, end_now,
  result_of, wait_for_shutdown_signal, react, react_all, shutdown_signal, client_new,
}

-- The token is cancelled, and an error names a task that panicked.
abbrev pub Explains : Client → Option (Result Watched (Unit {0})) → Type 0
Explains s none = Unit {0}
Explains s (some (ok u)) = s.cancelled ≡ true
Explains s (some (err w)) = (s.cancelled ≡ true) × (watched w s ≡ panicked)

abbrev pub IsExplained : Client → Type 0
IsExplained s = Explains s s.outcome

not_both : (t : Task) → is_running t ≡ true → t ≡ panicked → ⊥
not_both running a b = cc
not_both exited a b = cc
not_both panicked a b = cc

-- A task that has panicked is not one that ends.
watched-end_task :
    (s : Client) (w : Watched) (n : Name) (t : Task)
    → is_running (task_of n s) ≡ true
    → watched w s ≡ panicked
    → watched w (end_task n t s) ≡ panicked
watched-end_task s swarm_jh waiter t runs h = h
watched-end_task s swarm_jh swarm t runs h = absurd (not_both _ runs h)
watched-end_task s swarm_jh coordinator t runs h = h
watched-end_task s swarm_jh server t runs h = h
watched-end_task s swarm_jh messages t runs h = h
watched-end_task s swarm_jh bridge t runs h = h
watched-end_task s coord_jh waiter t runs h = h
watched-end_task s coord_jh swarm t runs h = h
watched-end_task s coord_jh coordinator t runs h = absurd (not_both _ runs h)
watched-end_task s coord_jh server t runs h = h
watched-end_task s coord_jh messages t runs h = h
watched-end_task s coord_jh bridge t runs h = h
watched-end_task s bridge_jh waiter t runs h = h
watched-end_task s bridge_jh swarm t runs h = h
watched-end_task s bridge_jh coordinator t runs h = h
watched-end_task s bridge_jh server t runs h = h
watched-end_task s bridge_jh messages t runs h = h
watched-end_task s bridge_jh bridge t runs h = absurd (not_both _ runs h)

cancelled-end_task : (s : Client) (n : Name) (t : Task) → (end_task n t s).cancelled ≡ s.cancelled
cancelled-end_task s waiter t = refl
cancelled-end_task s swarm t = refl
cancelled-end_task s coordinator t = refl
cancelled-end_task s server t = refl
cancelled-end_task s messages t = refl
cancelled-end_task s bridge t = refl

outcome-end_task : (s : Client) (n : Name) (t : Task) → (end_task n t s).outcome ≡ s.outcome
outcome-end_task s waiter t = refl
outcome-end_task s swarm t = refl
outcome-end_task s coordinator t = refl
outcome-end_task s server t = refl
outcome-end_task s messages t = refl
outcome-end_task s bridge t = refl

end_task-Explains :
    (s : Client) (n : Name) (t : Task) (o : Option (Result Watched (Unit {0})))
    → is_running (task_of n s) ≡ true
    → Explains s o
    → Explains (end_task n t s) o
end_task-Explains s n t none runs h = tt
end_task-Explains s n t (some (ok u)) runs h = cancelled-end_task s n t ∙ h
end_task-Explains s n t (some (err w)) runs h =
    (cancelled-end_task s n t ∙ h.0, watched-end_task s w n t runs h.1)

end_task-IsExplained :
    (s : Client) (n : Name) (t : Task)
    → is_running (task_of n s) ≡ true
    → IsExplained s
    → IsExplained (end_task n t s)
end_task-IsExplained s n t runs h =
    rw (outcome-end_task s n t) (end_task-Explains s n t s.outcome runs h)

-- Cancelling takes nothing back.
cancel-Explains :
    (s : Client) (o : Option (Result Watched (Unit {0})))
    → Explains s o
    → Explains (record s { cancelled = true }) o
cancel-Explains s none h = tt
cancel-Explains s (some (ok u)) h = refl
cancel-Explains s (some (err swarm_jh)) h = (refl, h.1)
cancel-Explains s (some (err coord_jh)) h = (refl, h.1)
cancel-Explains s (some (err bridge_jh)) h = (refl, h.1)

wakes-runs : (s : Client) (n : Name) → is_ready s (wakes n) ≡ true → is_running (task_of n s) ≡ true
unfolding is_ready
wakes-runs s waiter h = ground arith
wakes-runs s swarm h = ground arith
wakes-runs s coordinator h = ground arith
wakes-runs s server h = ground arith
wakes-runs s messages h = ground arith
wakes-runs s bridge h = ground arith

-- The result of a task that has ended.
result-Explains :
    (s : Client) (w : Watched) (t : Task)
    → watched w s ≡ t
    → Explains
        (record s { cancelled = true; outcome = some (result_of w t) })
        (some (result_of w t))
unfolding result_of
result-Explains s w running h = refl
result-Explains s w exited h = refl
result-Explains s swarm_jh panicked h = (refl, h)
result-Explains s coord_jh panicked h = (refl, h)
result-Explains s bridge_jh panicked h = (refl, h)

act-IsExplained :
    (s : Client) (p : Poll) → is_ready s p ≡ true → IsExplained s → IsExplained (act s p)
unfolding act
act-IsExplained s (wakes waiter) go h = end_task-IsExplained s waiter exited (wakes-runs s _ go) h
act-IsExplained s (wakes swarm) go h = end_task-IsExplained s swarm exited (wakes-runs s _ go) h
act-IsExplained s (wakes coordinator) go h =
    end_task-IsExplained s coordinator exited (wakes-runs s _ go) h
act-IsExplained s (wakes server) go h = end_task-IsExplained s server exited (wakes-runs s _ go) h
act-IsExplained s (wakes messages) go h =
    end_task-IsExplained s messages exited (wakes-runs s _ go) h
act-IsExplained s (wakes bridge) go h =
    cancel-Explains (end_task bridge exited s) s.outcome
      (end_task-Explains s bridge exited s.outcome (wakes-runs s bridge go) h)
act-IsExplained s (returns w) go h = result-Explains s w (watched w s) refl

-- A signal that has come, or none.
pub wait_for_shutdown_signal-came :
    (p : Signals) (s : Client) (name : _)
    → is_running s.waiter_task ≡ true
    → shutdown_signal p ≡ some name
    → wait_for_shutdown_signal p s ≡ record s { cancelled = true; waiter_task = exited }
unfolding wait_for_shutdown_signal
wait_for_shutdown_signal-came p s name runs came = ground (arith, runs, came)

pub wait_for_shutdown_signal-none :
    (p : Signals) (s : Client) → shutdown_signal p ≡ none → wait_for_shutdown_signal p s ≡ s
unfolding wait_for_shutdown_signal
wait_for_shutdown_signal-none p s nothing = ground (arith, nothing)

pub wait_for_shutdown_signal-gone :
    (p : Signals) (s : Client) → is_running s.waiter_task ≡ false → wait_for_shutdown_signal p s ≡ s
unfolding wait_for_shutdown_signal
wait_for_shutdown_signal-gone p s gone = ground (arith, gone)

pub react-IsExplained : (s : Client) (e : Event) → IsExplained s → IsExplained (react s e)
unfolding react poll wait_for_shutdown_signal end_now
react-IsExplained s (polled p) h = elim (Bool-cases (is_ready s p)) [
  | inl go ↦ rw (go, react) (act-IsExplained s p go h)
  | inr stay ↦ rw (stay, react) h
]
react-IsExplained s (signalled p) h = elim (Bool-cases (is_running s.waiter_task)) [
  | inr gone ↦ subst IsExplained (sym (wait_for_shutdown_signal-gone p s gone)) h
  | inl runs ↦ elim (Option-cases (shutdown_signal p)) [
    | inl nothing ↦ subst IsExplained (sym (wait_for_shutdown_signal-none p s nothing)) h
    | inr (name, came) ↦
        subst IsExplained (sym (wait_for_shutdown_signal-came p s name runs came)) (
          cancel-Explains (end_task waiter exited s) s.outcome
            (end_task-Explains s waiter exited s.outcome runs h))
  ]
]
react-IsExplained s (ends n) h = elim (Bool-cases (is_running (task_of n s))) [
  | inl runs ↦ rw (runs, end_now) (end_task-IsExplained s n exited runs h)
  | inr gone ↦ rw (gone, end_now) h
]
react-IsExplained s (panics n) h = elim (Bool-cases (is_running (task_of n s))) [
  | inl runs ↦ rw (runs, end_now) (end_task-IsExplained s n panicked runs h)
  | inr gone ↦ rw (gone, end_now) h
]

-- After any history of the client's tasks from its start on, if `run` has returned then the
-- token is cancelled, and if it has returned an error then the task that the error names has
-- panicked.
pub react_all-IsExplained : (history : List Event) → IsExplained (react_all client_new history)
unfolding react_all client_new
react_all-IsExplained history = go history client_new tt
  where
    go : (l : List Event) (s : Client) → IsExplained s → IsExplained (react_all s l)
    go [] s h = h
    go (e ∷ rest) s h = go rest (react s e) (react-IsExplained s e h)
