-- ===== src/Client/Bridge/Server/Permits.antt =====
-- bin/client/src/bridge.rs: the permits of the requests of `new_blob` that run at the same time.
use gozara.Base.{
  ℕ, ◌+◌, ◌≡◌, refl, String, List, [], ◌∷◌, map, Option, some, ok, inl, inr, arith, Option-cases,
  Result-cases, get_elem?, sum, sum-append, string_eq,
}
use mathlib.Core.List.{map-append}
use gozara.Base.Positions.{sum-set_at, sum-remove_at}
use gozara.Client.Services.{Services}
use gozara.Client.Bridge.{BridgeState, admission_new}
use gozara.Client.Bridge.Upload.{check_length}
use gozara.Client.Bridge.Server.{
  Server, Stage, admitted, Action, post, go, Outcome, stays, answers, vanishes, land, post_blob,
  serve,
}
use gozara.Client.Bridge.Server.Turns.{held, bridge_permits, Turned, turn-Turned}

module _ {Hash Tree : Type 0} where
  -- The free permits, those of the blobs on their way, and those of the requests.
  abbrev pub server_permits : Server Hash Tree → ℕ
  server_permits s = bridge_permits s.bridge + sum (map held s.requests)

module _ {Hash Tree : Type 0} (services : Services Hash Tree) where
  land-permits :
      (s : Server Hash Tree) (i : ℕ) (stage : Stage Hash) (o : Outcome Hash Tree)
      → get_elem? s.requests i ≡ some stage
      → Turned s.bridge stage o
      → server_permits (land i s o) ≡ server_permits s
  unfolding land
  land-permits s i stage (stays b stage') at_i (_, _, even) =
      omega (arith, even, sum-set_at held i stage stage' s.requests at_i)
  land-permits s i stage (answers b reply) at_i (_, even) =
      omega (arith, even, sum-remove_at held i stage s.requests at_i)
  land-permits s i stage (vanishes b) at_i (_, even) =
      omega (arith, even, sum-remove_at held i stage s.requests at_i)

  admission_new-permits :
      (b b' : BridgeState Hash Tree) (id vid : String) (now : ℕ)
      → admission_new services b id now ≡ ok (vid, b')
      → bridge_permits b' ≡ bridge_permits b
  unfolding admission_new
  admission_new-permits b b' id vid now h = ground arith

  post_blob-permits :
      (s : Server Hash Tree) (id : String) (header : Option (List ℕ)) (now : ℕ)
      → server_permits (post_blob services s id header now) ≡ server_permits s
  unfolding post_blob
  post_blob-permits s id header now = elim (Result-cases (check_length services header)) [
    | inr (code, e) ↦ rw (e, post_blob) refl
    | inl ((declared, n), e) ↦ elim (Result-cases (admission_new services s.bridge id now)) [
      | inr (code, e') ↦ rw (e, post_blob) (rw e' refl)
      | inl ((vid, b), e') ↦
          let starts : List (Stage Hash) = admitted id vid declared n ∷ [] in
          rw (e, post_blob)
            (rw (e', map-append held s.requests starts)
              (omega (
                arith,
                admission_new-permits s.bridge b id vid now e',
                sum-append (map held s.requests) (map held starts),
              )))
    ]
  ]

  pub serve-permits :
      (s : Server Hash Tree) (a : Action) → server_permits (serve services s a) ≡ server_permits s
  unfolding serve
  serve-permits s (post id header now) = post_blob-permits s id header now
  serve-permits s (go i t) = elim (Option-cases (get_elem? s.requests i)) [
    | inl gone ↦ rw (gone, serve) refl
    | inr (stage, at_i) ↦
        rw (at_i, serve) (land-permits s i stage _ at_i (turn-Turned services s.bridge stage t))
  ]
