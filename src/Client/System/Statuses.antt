-- ===== src/Client/System/Statuses.antt =====
-- bin/client: the statuses of the bridge, as its readers find them.
use gozara.Base.{
  Option, List, ℕ, ◌≡◌, ◌≢◌, refl, sym, ◌∙◌, subst, String, none, some, Result, err, Eq, inl, inr,
  Option-cases, string_eq,
}
use gozara.Client.Services.{Services}
use gozara.Client.Bridge.{
  BridgeState, StatusCode, bad_request_400, panicked, bridge_new, get_status, get_blob,
}
use gozara.Client.Bridge.StatusMap.{HasStatuses, handle_message-HasStatuses, get_status-ne-panicked}
use gozara.Client.Bridge.GetBlob.{get_blob-Answers}
use gozara.Client.Bridge.Server.{server_new}
use gozara.Client.Bridge.Server.Statuses.{serve-HasStatuses}
use gozara.Client.System.{
  System, system_new, Step, request, fetch, receive, work, notify, hear, ask, listen, release,
  Reach, here, next,
}

module _ {Hash Tree : Type 0} (services : Services Hash Tree) where
  -- `get_blob` answers, and leaves a status under each id.
  get_blob-HasStatuses :
      (b : BridgeState Hash Tree) (id : String) (now : ℕ)
      → HasStatuses b.status_map
      → (r : Result StatusCode (StatusCode × String) × BridgeState Hash Tree) × (get_blob services b
            id now
          ≡ some r)
        × HasStatuses r.1.status_map
  unfolding get_blob
  get_blob-HasStatuses b id now h = elim (Option-cases (services.parse_id id)) [
    | inl bad ↦ ((err bad_request_400, b), rw (bad, get_blob) refl, h)
    | inr (vid, good) ↦
        let (_, r, _, found, _, kept, _) = get_blob-Answers services b id vid now h good in
        (r, found, kept)
  ]

module _ {Hash Tree : Type 0} ⦃hash_eq : Eq Hash⦄ (services : Services Hash Tree)
    (decode : List ℕ → Option ℕ) where
  Step-HasStatuses :
      {s t : System Hash Tree}
      → Step services decode s t
      → HasStatuses s.server.bridge.status_map
      → HasStatuses t.server.bridge.status_map
  Step-HasStatuses (request s a fits) k = serve-HasStatuses services s.server a k
  Step-HasStatuses (fetch s id now r b' h) k =
      let (q, found, kept) = get_blob-HasStatuses services s.server.bridge id now k in
      let same : some q ≡ some (r, b') = sym found ∙ h in
      subst (λ o. elim o [ none ↦ ⊥ | some c ↦ HasStatuses c.1.status_map ]) same kept
  Step-HasStatuses (receive s now m rest p' waiting h) k = k
  Step-HasStatuses (work s now e p' none' h) k = k
  Step-HasStatuses (notify s now m rest waiting) k =
      handle_message-HasStatuses s.server.bridge now m k
  Step-HasStatuses (hear s now m rest p' waiting h) k = k
  Step-HasStatuses (ask s m rest waiting) k = k
  Step-HasStatuses (listen s e swarm' own h) k = k
  Step-HasStatuses (release s) k = k

  Reach-HasStatuses :
      {s : System Hash Tree}
      → Reach services decode system_new s
      → HasStatuses s.server.bridge.status_map
  unfolding system_new server_new bridge_new
  Reach-HasStatuses here = tt
  Reach-HasStatuses (next r st) = Step-HasStatuses st (Reach-HasStatuses r)

  -- In every state that the bridge, the coordinator and the swarm task reach from their start,
  -- `get_status` and `get_blob` answer whatever id they are asked for, without a panic.
  pub Reach-answers :
      (s : System Hash Tree) (id : String) (now : ℕ)
      → Reach services decode system_new s
      → (get_status s.server.bridge id ≢ panicked)
        × ((r : Result StatusCode (StatusCode × String) × BridgeState Hash Tree) × (get_blob
                services s.server.bridge id now
              ≡ some r))
  Reach-answers s id now reached =
      let k = Reach-HasStatuses reached in
      let (r, found, _) = get_blob-HasStatuses services s.server.bridge id now k in
      (get_status-ne-panicked s.server.bridge id k, (r, found))
