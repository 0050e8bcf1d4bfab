-- ===== src/Client/Bridge/Server/Statuses.antt =====
-- bin/client/src/bridge.rs: what holds of each list of statuses, under the requests of `new_blob` that run at the
-- same time.
use gozara.Base.{
  ℕ, ◌≡◌, ◌≢◌, sym, subst, String, List, [], ◌∷◌, Option, ◌⊎◌, inl, inr, Option-cases, Result-cases,
  get_elem?, string_eq, All,
}
use gozara.Base.Maps.{All-insert, All-remove, remove}
use gozara.Client.Messages.{pending}
use gozara.Client.Services.{Services}
use gozara.Client.Bridge.{TimestampedStatus, admission_new}
use gozara.Client.Bridge.Upload.{check_length}
use gozara.Client.Bridge.StatusMap.{HasStatuses}
use gozara.Client.Bridge.Server.{
  Server, Stage, Action, post, go, Outcome, stays, answers, vanishes, land, post_blob, serve,
}
use gozara.Client.Bridge.Server.Turns.{entry_of, Turned, turn-Turned}
use gozara.Client.Bridge.Server.Entries.{admission_new-vacant}

-- A property of each list of the map.
abbrev pub Each :
    (List TimestampedStatus → Type 0) → List (String × List TimestampedStatus) → Type 0
Each P m = All (λ p. P p.1) m

-- It holds of a list that begins with a pending status.
abbrev pub HoldsAtFirst : (List TimestampedStatus → Type 0) → Type 0
HoldsAtFirst P = (s : TimestampedStatus) → s.status ≡ pending → P (s ∷ [])

module _ (P : List TimestampedStatus → Type 0) where
  removed-Each :
      (m m' : List (String × List TimestampedStatus)) (id : String)
      → (m' ≡ m) ⊎ (m' ≡ remove id m)
      → Each P m
      → Each P m'
  removed-Each m m' id (inl same) h = subst (Each P) (sym same) h
  removed-Each m m' id (inr less) h = subst (Each P) (sym less) (All-remove P id m h)

  land-Each :
      {Hash Tree : Type 0} (s : Server Hash Tree) (i : ℕ) (stage : Stage Hash)
      (o : Outcome Hash Tree)
      → Turned s.bridge stage o
      → Each P s.bridge.status_map
      → Each P (land i s o).bridge.status_map
  unfolding land
  land-Each s i stage (stays b stage') (_, kept, _) h = subst (Each P) (sym kept) h
  land-Each s i stage (answers b reply) (kept, _) h =
      removed-Each s.bridge.status_map _ (entry_of stage) kept h
  land-Each s i stage (vanishes b) (kept, _) h =
      removed-Each s.bridge.status_map _ (entry_of stage) kept h

module _ {Hash Tree : Type 0} (services : Services Hash Tree)
    (P : List TimestampedStatus → Type 0) where
  post_blob-Each :
      (s : Server Hash Tree) (id : String) (header : Option (List ℕ)) (now : ℕ)
      → HoldsAtFirst P
      → Each P s.bridge.status_map
      → Each P (post_blob services s id header now).bridge.status_map
  unfolding post_blob
  post_blob-Each s id header now first h = elim (Result-cases (check_length services header)) [
    | inr (code, e) ↦ rw (e, post_blob) h
    | inl ((declared, n), e) ↦ elim (Result-cases (admission_new services s.bridge id now)) [
      | inr (code, e') ↦ rw (e, post_blob) (rw e' h)
      | inl ((vid, b), e') ↦
          let (free, (status, fresh, after)) =
            admission_new-vacant services s.bridge b id vid now e' in
          rw (e, post_blob)
            (rw (e', after)
              (All-insert P vid (status ∷ []) s.bridge.status_map (first status fresh) h))
    ]
  ]

  pub serve-Each :
      (s : Server Hash Tree) (a : Action)
      → HoldsAtFirst P
      → Each P s.bridge.status_map
      → Each P (serve services s a).bridge.status_map
  unfolding serve
  serve-Each s (post id header now) first h = post_blob-Each s id header now first h
  serve-Each s (go i t) first h = elim (Option-cases (get_elem? s.requests i)) [
    | inl gone ↦ rw (gone, serve) h
    | inr (stage, at_i) ↦
        rw (at_i, serve) (land-Each P s i stage _ (turn-Turned services s.bridge stage t) h)
  ]

module _ {Hash Tree : Type 0} (services : Services Hash Tree) where
  pub serve-HasStatuses :
      (s : Server Hash Tree) (a : Action)
      → HasStatuses s.bridge.status_map
      → HasStatuses (serve services s a).bridge.status_map
  serve-HasStatuses s a h = serve-Each services (λ l. l ≢ []) s a (λ status fresh e. cc) h
