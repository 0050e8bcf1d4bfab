-- ===== src/Client/System/Blobs.antt =====
-- bin/client: the blobs on their way from the bridge to the coordinator.
use gozara.Base.{ℕ, subst, List, [], ◌∷◌, Option, All, Eq}
use gozara.Client.Services.{Services}
use gozara.Client.Bridge.{bridge_new}
use gozara.Client.Bridge.Server.{server_new}
use gozara.Client.Bridge.Server.Blobs.{CarriesWhole}
use gozara.Client.Bridge.Server.Others.{get_blob-Sends}
use gozara.Client.Bridge.Server.Wholesome.{
  Bodies, IsWholesome, Sends-CarriesWhole, Sends-other, serves_in, serve-IsWholesome,
  handle_message-Sends,
}
use gozara.Client.System.{
  System, system_new, Step, request, fetch, receive, work, notify, hear, ask, listen, release,
  Reach, here, next,
}

module _ {Hash Tree : Type 0} ⦃hash_eq : Eq Hash⦄ (services : Services Hash Tree)
    (decode : List ℕ → Option ℕ) where
  -- What has come in of the body of each upload that runs, from the frames of the steps taken.
  abbrev pub step_in : {s t : System Hash Tree} → Step services decode s t → Bodies → Bodies
  step_in (request s a fits) bodies = serves_in services s.server a bodies
  step_in (fetch s id now r b' e) bodies = bodies
  step_in (receive s now m rest p' waiting e) bodies = bodies
  step_in (work s now e p' none' e') bodies = bodies
  step_in (notify s now m rest waiting) bodies = bodies
  step_in (hear s now m rest p' waiting e) bodies = bodies
  step_in (ask s m rest waiting) bodies = bodies
  step_in (listen s e swarm' own e') bodies = bodies
  step_in (release s) bodies = bodies

  abbrev pub bodies_in : {s t : System Hash Tree} → Reach services decode s t → Bodies
  bodies_in here = record { so_far = []; whole = [] }
  bodies_in (next r st) = step_in st (bodies_in r)

  Step-IsWholesome :
      {s t : System Hash Tree} (st : Step services decode s t) (bodies : Bodies)
      → IsWholesome services s.server bodies
      → IsWholesome services t.server (step_in st bodies)
  Step-IsWholesome (request s a fits) bodies h = serve-IsWholesome services s.server a bodies fits h
  Step-IsWholesome (fetch s id now r b' e) bodies h = (
    h.0,
    Sends-CarriesWhole services bodies.whole bodies.whole s.server.bridge b' (λ x k. k)
        (Sends-other services bodies.whole s.server.bridge b'
          (get_blob-Sends services s.server.bridge b' id now r e))
        h.1,
  )
  Step-IsWholesome (receive s now m rest p' waiting e) bodies h =
      let carried : All (CarriesWhole services bodies.whole) (m ∷ rest) =
        subst (All (CarriesWhole services bodies.whole)) waiting h.1 in
      (h.0, carried.1)
  Step-IsWholesome (work s now e p' none' e') bodies h = h
  Step-IsWholesome (hear s now m rest p' waiting e) bodies h = h
  Step-IsWholesome (ask s m rest waiting) bodies h = h
  Step-IsWholesome (listen s e swarm' own e') bodies h = h
  Step-IsWholesome (notify s now m rest waiting) bodies h =
      rw (handle_message-Sends services s.server.bridge now m) h
  Step-IsWholesome (release s) bodies h = h

  -- In every state that the bridge, the coordinator and the swarm task reach from their start,
  -- where each frame is shorter than 2 ^ 63 bytes, every blob on its way to the coordinator
  -- stands under a valid id and is the body of an upload that has been answered, exactly the
  -- bytes that its frames brought, of 1 to `max_blob_size` bytes, cut into chunks that are
  -- full but for the last, each with its hash, with their tree and its root and one permit for
  -- each chunk. Each upload that reads has a valid id, has cut exactly the bytes that its
  -- frames have brought since it began in the same way and counted them, within the declared
  -- length, and holds the permits of that length.
  pub Reach-IsWholesome :
      {s : System Hash Tree} (r : Reach services decode system_new s)
      → IsWholesome services s.server (bodies_in r)
  unfolding system_new server_new bridge_new
  Reach-IsWholesome here = (tt, tt)
  Reach-IsWholesome (next r st) = Step-IsWholesome st (bodies_in r) (Reach-IsWholesome r)
