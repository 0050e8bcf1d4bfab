-- ===== src/Client/System/Uploads.antt =====
-- bin/client: the uploads that run at the same time, with all that the client does beside them.
use gozara.Base.{
  List, Option, ℕ, ◌≡◌, ◌≢◌, String, none, some, ok, Eq, inl, inr, Option-cases, string_eq,
  get_elem?,
}
use gozara.Base.Maps.{lookup}
use gozara.Client.Services.{Services}
use gozara.Client.Bridge.{
  BridgeState, StatusCode, replied, not_found_404, bridge_new, get_status, most_recent,
  status_reply,
}
use gozara.Client.Bridge.Upload.{Upload}
use gozara.Client.Bridge.Server.{server_new, reading, go, end_of_body, answers, turn, serve}
use gozara.Client.Bridge.Server.Entries.{HasEntry, IsExclusive, Keeps-Exclusive, serve-IsExclusive}
use gozara.Client.Bridge.Server.Kept.{IsKept, serve-IsKept, created-IsKept}
use gozara.Client.Bridge.Server.Others.{handle_message-Gentle, get_blob-Gentle}
use gozara.Client.Coordinator.{pipeline_new}
use gozara.Client.System.{
  System, system_new, Step, request, fetch, receive, work, notify, hear, ask, listen, release,
  Reach, here, next,
}

module _ {Hash Tree : Type 0} where
  get_status-found :
      (b : BridgeState Hash Tree) (id : String)
      → HasEntry b.status_map id
      → get_status b id ≢ replied not_found_404 none
  unfolding get_status
  get_status-found b id h = elim (Option-cases (lookup id b.status_map)) [
    | inl absent ↦ absurd (h absent)
    | inr (l, there) ↦ elim (Option-cases (most_recent l)) [
      | inl empty ↦ rw there (rw (empty, status_reply) (λ e. cc))
      | inr (status, last) ↦ rw there (rw (last, status_reply) (λ e. cc))
    ]
  ]

module _ {Hash Tree : Type 0} ⦃hash_eq : Eq Hash⦄ (services : Services Hash Tree)
    (decode : List ℕ → Option ℕ) where
  Step-IsExclusive :
      {s t : System Hash Tree}
      → Step services decode s t
      → IsExclusive s.server
      → IsExclusive t.server
  Step-IsExclusive (request s a fits) h = serve-IsExclusive services s.server a h
  Step-IsExclusive (fetch s id now r b' e) h =
      Keeps-Exclusive s.server.bridge.status_map b'.status_map _
        (get_blob-Gentle services s.server.bridge b' id now r e).1 h
  Step-IsExclusive (receive s now m rest p' waiting e) h = h
  Step-IsExclusive (work s now e p' none' e') h = h
  Step-IsExclusive (notify s now m rest waiting) h =
      Keeps-Exclusive s.server.bridge.status_map _ _ (handle_message-Gentle s.server.bridge now m).1
        h
  Step-IsExclusive (hear s now m rest p' waiting e) h = h
  Step-IsExclusive (ask s m rest waiting) h = h
  Step-IsExclusive (listen s e swarm' own e') h = h
  Step-IsExclusive (release s) h = h

  -- In every state that the bridge, the coordinator and the swarm task reach from their start,
  -- the uploads that run at the same time have different validated ids, and the entry of each
  -- is in the status map.
  pub Reach-IsExclusive :
      {s : System Hash Tree} → Reach services decode system_new s → IsExclusive s.server
  unfolding system_new server_new bridge_new pipeline_new
  Reach-IsExclusive here = (tt, tt)
  Reach-IsExclusive (next r st) = Step-IsExclusive st (Reach-IsExclusive r)

  Step-IsKept :
      {s t : System Hash Tree}
      → Step services decode s t
      → (id : String) → IsKept s.server id
      → IsKept t.server id
  Step-IsKept (request s a fits) id h = serve-IsKept services s.server a id h
  Step-IsKept (fetch s i now r b' e) id h =
      ((get_blob-Gentle services s.server.bridge b' i now r e).1 id h.0, h.1)
  Step-IsKept (receive s now m rest p' waiting e) id h = h
  Step-IsKept (work s now e p' none' e') id h = h
  Step-IsKept (notify s now m rest waiting) id h =
      ((handle_message-Gentle s.server.bridge now m).1 id h.0, h.1)
  Step-IsKept (hear s now m rest p' waiting e) id h = h
  Step-IsKept (ask s m rest waiting) id h = h
  Step-IsKept (listen s e swarm' own e') id h = h
  Step-IsKept (release s) id h = h

  Reach-IsKept :
      {s t : System Hash Tree}
      → Reach services decode s t
      → (id : String) → IsKept s.server id
      → IsKept t.server id
  Reach-IsKept here id h = h
  Reach-IsKept (next r st) id h = Step-IsKept st id (Reach-IsKept r id h)

  -- An upload that ends with success, in any state that the bridge, the coordinator and the
  -- swarm task reach from their start, leaves its entry for good: in every state that is
  -- reached from there, whatever other uploads do under the same or other ids, `get_status`
  -- does not answer `404` under its validated id.
  pub created-found :
      (s t : System Hash Tree) (i : ℕ) (u : Upload Hash) (b' : BridgeState Hash Tree)
      (answer : StatusCode × String)
      → Reach services decode system_new s
      → get_elem? s.server.requests i ≡ some (reading u)
      → turn services s.server.bridge (reading u) end_of_body ≡ answers b' (ok answer)
      → Reach services decode (record s { server = serve services s.server (go i end_of_body) }) t
      → get_status t.server.bridge u.validated_id ≢ replied not_found_404 none
  created-found s t i u b' answer reached at_i created later =
      get_status-found t.server.bridge u.validated_id
        (Reach-IsKept later u.validated_id (
          created-IsKept services s.server i u b' answer (Reach-IsExclusive reached) at_i
            created)).0
