-- ===== src/Client/System/Pending.antt =====
-- bin/client: what the statuses of the bridge come to, as the swarm task delivers no response.
use gozara.Base.{
  ℕ, ◌≡◌, ◌≢◌, ◌⊎◌, refl, ap, subst, String, List, [], ◌∷◌, Option, none, some, All, Eq, arith, inl,
  inr, Option-cases, string_eq,
}
use gozara.Base.Maps.{lookup, All-lookup}
use gozara.Peyk.Protocol.{request_storage_permits}
use gozara.Peyk.Swarm.{swarm_new, handle_swarm_message}
use gozara.Peyk.Swarm.Channel.{IsSound, IsNoResponse, take_from-IsSound, round-IsSound, state_of}
use gozara.Client.Messages.{pending}
use gozara.Client.Services.{Services}
use gozara.Client.Bridge.{
  TimestampedStatus, replied, ok_200, not_found_404, bridge_new, get_status, most_recent,
  status_reply,
}
use gozara.Client.Bridge.Server.{server_new}
use gozara.Client.Bridge.Server.Statuses.{Each, HoldsAtFirst, serve-Each}
use gozara.Client.Bridge.Server.Others.{Grows-Each, get_blob-Grows}
use gozara.Client.Coordinator.{Pipeline, pipeline_new}
use gozara.Client.Coordinator.Events.{
  Event, running, handler, admission, shutdown_requested, stale_tick, assign_tick, internal,
  incoming_push, incoming_pull, transfer, closed, ended, step,
}
use gozara.Client.Coordinator.Starved.{IsStarved, ComesFromSwarm, LoopStarves, step-LoopStarves}
use gozara.Client.System.{
  IsInternal, System, system_new, Step, request, fetch, receive, work, notify, hear, ask, listen,
  release, Reach, here, next,
}

-- Every status of the map is pending.
abbrev pub ArePending : List TimestampedStatus → Type 0
ArePending l = (l ≢ []) × All (λ s. s.status ≡ pending) l

last-ArePending : (l : List TimestampedStatus) → ArePending l → most_recent l ≡ some pending
last-ArePending [] h = absurd (h.0 refl)
last-ArePending (s ∷ []) h = ap some h.1.0
last-ArePending (s ∷ t ∷ l) h = last-ArePending (t ∷ l) ((λ e. cc), h.1.1)

first-ArePending : HoldsAtFirst ArePending
first-ArePending s fresh = ((λ e. cc), (fresh, tt))

-- What keeps the bridge from hearing of a blob.
abbrev pub Starves : {Hash Tree : Type 0} → System Hash Tree → Type 0
Starves s = IsStarved s.pipeline × IsSound s.swarm × Each ArePending s.server.bridge.status_map

internal-ComesFromSwarm :
    {Hash Tree : Type 0} (e : Event Hash Tree) → IsInternal e → ComesFromSwarm e
internal-ComesFromSwarm shutdown_requested own = tt
internal-ComesFromSwarm stale_tick own = tt
internal-ComesFromSwarm assign_tick own = tt
internal-ComesFromSwarm (handler m) own = absurd own
internal-ComesFromSwarm (admission m) own = absurd own
internal-ComesFromSwarm internal own = tt
internal-ComesFromSwarm (incoming_push p) own = tt
internal-ComesFromSwarm (incoming_pull p) own = tt
internal-ComesFromSwarm (transfer e) own = tt
internal-ComesFromSwarm closed own = tt
internal-ComesFromSwarm (ended i r) own = tt

module _ {Hash Tree : Type 0} ⦃hash_eq : Eq Hash⦄ (services : Services Hash Tree) where
  -- A round after which the coordinator goes on.
  round-IsStarved :
      (p p' : Pipeline Hash Tree) (now : ℕ) (e : Event Hash Tree)
      → ComesFromSwarm e
      → IsStarved p
      → step services p now e ≡ running p'
      → IsStarved p'
  round-IsStarved p p' now e comes h went =
      subst LoopStarves went (step-LoopStarves services p now e comes h)

module _ {Hash Tree : Type 0} ⦃hash_eq : Eq Hash⦄ (services : Services Hash Tree)
    (decode : List ℕ → Option ℕ) where
  Step-Starves : {s t : System Hash Tree} → Step services decode s t → Starves s → Starves t
  unfolding handle_swarm_message
  Step-Starves (request s a fits) (starved, sound, waits) =
      (starved, sound, serve-Each services ArePending s.server a first-ArePending waits)
  Step-Starves (fetch s id now r b' e) (starved, sound, waits) = (
    starved,
    sound,
    Grows-Each ArePending s.server.bridge.status_map b'.status_map first-ArePending
        (get_blob-Grows services s.server.bridge b' id now r e) waits,
  )
  Step-Starves (receive s now m rest p' waiting e) (starved, sound, waits) =
      (round-IsStarved services s.pipeline p' now (admission m) tt starved e, sound, waits)
  Step-Starves (work s now ev p' own e) (starved, sound, waits) = (
    round-IsStarved services s.pipeline p' now ev (internal-ComesFromSwarm ev own) starved e,
    sound,
    waits,
  )
  Step-Starves (hear s now m rest p' waiting e) (starved, sound, waits) =
      let heard : All IsNoResponse (m ∷ rest) = subst (All IsNoResponse) waiting sound.0 in
      (
        round-IsStarved services s.pipeline p' now (handler m) heard.0 starved e,
        take_from-IsSound (m ∷ rest) s.swarm waiting sound,
        waits,
      )
  Step-Starves (ask s (request_storage_permits peers) rest waiting) (starved, sound, waits) =
      (starved, sound, waits)
  Step-Starves (listen s e swarm' own went) (starved, sound, waits) = (
    starved,
    subst (λ r. IsSound (state_of r)) went (round-IsSound decode s.swarm e sound),
    waits,
  )
  Step-Starves (notify s now m rest waiting) (starved, sound, waits) =
      absurd (ground (arith, starved.3, waiting))
  Step-Starves (release s) (starved, sound, waits) = (starved, sound, waits)

  Reach-Starves : {s : System Hash Tree} → Reach services decode system_new s → Starves s
  unfolding system_new server_new bridge_new pipeline_new swarm_new
  Reach-Starves here = ((refl, refl, refl, refl), (tt, tt, omega arith, tt), tt)
  Reach-Starves (next r st) = Step-Starves st (Reach-Starves r)

  -- In every state that the bridge, the coordinator and the swarm task reach from their start,
  -- whatever id is asked for, `get_status` answers `404` or that the blob is pending.
  pub Reach-stays_pending :
      (s : System Hash Tree) (id : String)
      → Reach services decode system_new s
      → (get_status s.server.bridge id ≡ replied not_found_404 none)
        ⊎ (get_status s.server.bridge id ≡ replied ok_200 (some pending))
  unfolding get_status
  Reach-stays_pending s id reached =
      let (starved, sound, waits) = Reach-Starves reached in
      elim (Option-cases (lookup id s.server.bridge.status_map)) [
        | inl absent ↦ inl (rw absent refl)
        | inr (l, there) ↦
            let last =
              last-ArePending l
                (All-lookup ArePending id s.server.bridge.status_map l waits there) in
            inr (rw there (rw (last, status_reply) refl))
      ]
