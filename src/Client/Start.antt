-- ===== src/Client/Start.antt =====
-- bin/client/src/main.rs and the start of `run` of bin/client/src/lib.rs: from the environment to the tasks.
use gozara.Base.{
  subst, ℕ, ◌≡◌, refl, String, List, Bool, true, false, Result, ok, err, inl, inr, Result-cases,
  Bool-cases, if◌then◌else◌,
}
use gozara.Peyk.Behaviour.{Libp2p, Node, GlobalBehaviour, StartError}
use gozara.Client.Config.{
  Config, load_config, values, required, values_of, Loads, load_config-Loads,
}
use gozara.Client.Network.{local_key, go_public}
use gozara.Client.Network.Joins.{HasJoined, go_public-HasJoined}
use gozara.Client.Supervision.{Client, client_new}

-- Why the client does not start: a variable is missing, its node cannot be set up, a stream protocol is taken
-- already, or the address of the HTTP server is.
pub data StartupError : Type 0 where
  missing : String → StartupError
  no_node : StartError → StartupError
  no_streams no_listener : StartupError

-- `new_key` is what a start without a key file makes, `can_write` whether it can be written, `accepts` whether
-- the control of streams accepts both protocols, and `binds` whether the server's address can be bound.
module _ {Key : Type 0} (libp2p : Libp2p Key) (new_key : Key) (can_write accepts binds : Bool) where
  abbrev pub Started : Type 0
  Started = Node (GlobalBehaviour Key) × List (String × List ℕ) × Client

  -- `tokio::try_join!(..)?` of the swarm task, which always starts, the coordinator and the bridge.
  unfoldable pub join_tasks :
      Node (GlobalBehaviour Key) → List (String × List ℕ) → Result StartupError Started
  join_tasks node files =
      if accepts
      then (if binds then ok (node, files, client_new) else err no_listener)
      else err no_streams

  unfoldable pub launch : Config → List (String × List ℕ) → Result StartupError Started
  launch config files = elim (go_public libp2p new_key can_write config files) [
    | err e ↦ err (no_node e)
    | ok (node, files') ↦ join_tasks node files'
  ]

  unfoldable pub start_client :
      List (String × String) → List (String × List ℕ) → Result StartupError Started
  start_client env files = elim (load_config env) [
    | err name ↦ err (missing name)
    | ok config ↦ launch config files
  ]

  -- What a start says of the environment and the files.
  abbrev pub Launches : Config → List (String × List ℕ) → Result StartupError Started → Type 0
  Launches config files (err (missing name)) = ⊥
  Launches config files (err (no_node e)) = go_public libp2p new_key can_write config files ≡ err e
  Launches config files (err no_streams) = accepts ≡ false
  Launches config files (err no_listener) = binds ≡ false
  Launches config files (ok (node, files', client)) =
      (accepts ≡ true)
      × (binds ≡ true)
      × (client ≡ client_new)
      × ((key : Key) × (local_key libp2p new_key can_write config.key_file files ≡ ok (key, files'))
          × HasJoined libp2p config key node)

  abbrev pub Starts :
      List (String × String) → List (String × List ℕ) → Result StartupError Started → Type 0
  Starts env files (err (missing name)) = values env required ≡ err name
  Starts env files r =
      (config : Config) × (values env required ≡ ok (values_of config)) × Launches config files r

  launch-Launches :
      (config : Config) (files : List (String × List ℕ))
      → Launches config files (launch config files)
  unfolding launch join_tasks
  launch-Launches config files =
      elim (Result-cases (go_public libp2p new_key can_write config files)) [
        | inr (e, failed) ↦ rw (failed, launch) failed
        | inl ((node, files'), went) ↦
            let joined =
              go_public-HasJoined libp2p new_key can_write config files files' node went in
            elim (Bool-cases accepts) [
              | inr taken ↦ rw (went, launch) (rw taken refl)
              | inl free ↦ elim (Bool-cases binds) [
                | inr bound ↦ rw (went, launch) (rw (free, bound) refl)
                | inl unbound ↦ rw (went, launch) (rw (free, unbound) (refl, refl, refl, joined))
              ]
            ]
      ]

  Launches-Starts :
      (env : List (String × String)) (config : Config) (files : List (String × List ℕ))
      (r : Result StartupError Started)
      → values env required ≡ ok (values_of config)
      → Launches config files r
      → Starts env files r
  Launches-Starts env config files (err (missing name)) read h = absurd h
  Launches-Starts env config files (err (no_node e)) read h = (config, read, h)
  Launches-Starts env config files (err no_streams) read h = (config, read, h)
  Launches-Starts env config files (err no_listener) read h = (config, read, h)
  Launches-Starts env config files (ok started) read h = (config, read, h)

  -- A start of the client that fails on a variable names the first of the required variables
  -- that the environment does not have. Any other start has read a configuration with the
  -- values of these variables, and it fails with what `go_public` fails with, or where a
  -- stream protocol or the server's address is taken; or it succeeds with all its tasks
  -- running and a node that listens on both addresses, knows the one bootnode of the
  -- configuration and no other, and says the two external addresses of the configuration,
  -- under the key of the key file or the one that was made.
  pub start_client-Starts :
      (env : List (String × String)) (files : List (String × List ℕ))
      → Starts env files (start_client env files)
  unfolding start_client
  start_client-Starts env files = elim (Result-cases (load_config env)) [
    | inr (name, e) ↦ rw (e, start_client) (subst (Loads env) e (load_config-Loads env))
    | inl (config, e) ↦
        rw (e, start_client)
          (Launches-Starts env config files (launch config files)
            (subst (Loads env) e (load_config-Loads env)) (launch-Launches config files))
  ]
