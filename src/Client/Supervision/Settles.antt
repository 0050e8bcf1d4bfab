-- ===== src/Client/Supervision/Settles.antt =====
-- bin/client/src/lib.rs, `run`: the polls after which no task has anything left to do.
use gozara.Base.{
  ℕ, suc, ◌+◌, ◌≤◌, ◌≡◌, refl, List, [], ◌∷◌, Bool, true, false, ◌&&◌, Option, none, some, Result,
  ◌⊎◌, inl, inr, arith, Option-cases, Bool-cases, All,
}
use gozara.Client.Supervision.{
  Client, waiter, swarm, coordinator, server, messages, bridge, Watched, swarm_jh, coord_jh,
  bridge_jh, Poll, wakes, returns, is_running, is_ready, act, poll,
}

abbrev pub one_if : Bool → ℕ
one_if true = 1
one_if false = 0

abbrev pub pending_result : Option (Result Watched (Unit {0})) → ℕ
pending_result none = 1
pending_result (some r) = 0

-- The tasks that run, and one more until `run` returns.
abbrev pub left : Client → ℕ
left s =
    one_if (is_running s.waiter_task)
    + one_if (is_running s.swarm_task)
    + one_if (is_running s.coordinator_task)
    + one_if (is_running s.server_task)
    + one_if (is_running s.messages_task)
    + one_if (is_running s.bridge_task)
    + pending_result s.outcome

one_if-true : (a b : Bool) → a && b ≡ true → one_if a ≡ 1
one_if-true true b h = refl
one_if-true false b h = absurd (cc)

returns-pending :
    (s : Client) (w : Watched) → is_ready s (returns w) ≡ true → pending_result s.outcome ≡ 1
unfolding is_ready
returns-pending s w h = elim (Option-cases s.outcome) [
  | inl none' ↦ rw none' refl
  | inr (r, some') ↦ absurd (ground (arith, some'))
]

-- A poll that is ready ends one task, or `run`.
act-left : (s : Client) (p : Poll) → is_ready s p ≡ true → suc (left (act s p)) ≡ left s
unfolding act is_ready
act-left s (wakes waiter) h = omega (arith, one_if-true (is_running s.waiter_task) _ h)
act-left s (wakes swarm) h = omega (arith, one_if-true (is_running s.swarm_task) _ h)
act-left s (wakes coordinator) h = omega (arith, one_if-true (is_running s.coordinator_task) _ h)
act-left s (wakes server) h = omega (arith, one_if-true (is_running s.server_task) _ h)
act-left s (wakes messages) h = omega (arith, one_if-true (is_running s.messages_task) _ h)
act-left s (wakes bridge) h = omega (arith, one_if-true (is_running s.bridge_task) _ h)
act-left s (returns w) h = omega (arith, returns-pending s w h)

pub poll-left : (s : Client) (p : Poll) → is_ready s p ≡ true → suc (left (poll s p)) ≡ left s
unfolding poll
poll-left s p h = rw (h, poll) (act-left s p h)

-- Nothing is left to do.
abbrev pub IsQuiet : Client → Type 0
IsQuiet s = (p : Poll) → is_ready s p ≡ false

abbrev all_polls : List Poll
all_polls =
    wakes waiter
    ∷ wakes swarm
    ∷ wakes coordinator
    ∷ wakes server
    ∷ wakes messages
    ∷ wakes bridge
    ∷ returns swarm_jh
    ∷ returns coord_jh
    ∷ returns bridge_jh
    ∷ []

-- A poll that is ready.
abbrev pub HasReady : Client → Type 0
HasReady s = (p : Poll) × (is_ready s p ≡ true)

first_ready : (s : Client) (ps : List Poll) → HasReady s ⊎ All (λ p. is_ready s p ≡ false) ps
first_ready s [] = inr tt
first_ready s (p ∷ ps) = elim (Bool-cases (is_ready s p)) [
  | inl go ↦ inl (p, go)
  | inr wait ↦ elim (first_ready s ps) [ inl found ↦ inl found | inr none' ↦ inr (wait, none') ]
]

all_polls-IsQuiet : (s : Client) → All (λ p. is_ready s p ≡ false) all_polls → IsQuiet s
all_polls-IsQuiet s h (wakes waiter) = h.0
all_polls-IsQuiet s h (wakes swarm) = h.1.0
all_polls-IsQuiet s h (wakes coordinator) = h.1.1.0
all_polls-IsQuiet s h (wakes server) = h.1.1.1.0
all_polls-IsQuiet s h (wakes messages) = h.1.1.1.1.0
all_polls-IsQuiet s h (wakes bridge) = h.1.1.1.1.1.0
all_polls-IsQuiet s h (returns swarm_jh) = h.1.1.1.1.1.1.0
all_polls-IsQuiet s h (returns coord_jh) = h.1.1.1.1.1.1.1.0
all_polls-IsQuiet s h (returns bridge_jh) = h.1.1.1.1.1.1.1.1.0

pub HasReady-or-IsQuiet : (s : Client) → HasReady s ⊎ IsQuiet s
HasReady-or-IsQuiet s = elim (first_ready s all_polls) [
  | inl found ↦ inl found
  | inr none' ↦ inr (all_polls-IsQuiet s none')
]

one_if_max : (b : Bool) → one_if b ≤ 1
one_if_max true = omega arith
one_if_max false = omega arith

pending_max : (o : Option (Result Watched (Unit {0}))) → pending_result o ≤ 1
pending_max none = omega arith
pending_max (some r) = omega arith

-- No more than seven polls are ready one after the other.
pub left_max : (s : Client) → left s ≤ 7
left_max s = omega (
  arith,
  one_if_max (is_running s.waiter_task),
  one_if_max (is_running s.swarm_task),
  one_if_max (is_running s.coordinator_task),
  one_if_max (is_running s.server_task),
  one_if_max (is_running s.messages_task),
  one_if_max (is_running s.bridge_task),
  pending_max s.outcome,
)
