-- ===== src/Client/Bridge/Server/Kept.antt =====
-- bin/client/src/bridge.rs: an entry that no request of `new_blob` holds any more.
use gozara.Base.{
  ℕ, ◌≡◌, ◌≢◌, sym, ap, ◌∙◌, subst, String, List, [], ◌∷◌, map, Option, some, Result, ok, err, ◌⊎◌,
  inl, inr, All, All-append, arith, Option-cases, Result-cases, get_elem?, string_eq,
}
use mathlib.Core.List.{map-append}
use gozara.Base.Positions.{
  remove_at, map-set_at, map-remove_at, get_elem?-map, All-remove_at, All-get_elem?, remove_at-ne,
}
use gozara.Base.Maps.{lookup, remove}
use gozara.Client.Messages.{AdmittedBlob}
use gozara.Client.Services.{Services}
use gozara.Client.Bridge.{
  BridgeState, TimestampedStatus, StatusCode, admission_new, send_admission, admission_drop,
}
use gozara.Client.Bridge.Upload.{Upload, check_length, assemble}
use gozara.Client.Bridge.Server.{
  Server, Stage, admitted, reading, Action, post, go, end_of_body, Outcome, stays, answers,
  vanishes, give_up, hand_over, land, turn, post_blob, serve,
}
use gozara.Client.Bridge.Server.Turns.{entry_of, Turned, turn-Turned}
use gozara.Client.Bridge.Server.Entries.{
  HasEntry, IsExclusive, insert-HasEntry, remove-HasEntry, admission_new-vacant,
}

-- The entry is in the map, and none of the requests that run will take it back.
abbrev pub Kept : List (String × List TimestampedStatus) → List String → String → Type 0
Kept m ids id = HasEntry m id × All (λ j. j ≢ id) ids

abbrev pub IsKept : {Hash Tree : Type 0} → Server Hash Tree → String → Type 0
IsKept s id = Kept s.bridge.status_map (map entry_of s.requests) id

removed-Kept :
    (m m' : List (String × List TimestampedStatus)) (i : ℕ) (own id : String) (ids : List String)
    → Kept m ids id
    → get_elem? ids i ≡ some own
    → (m' ≡ m) ⊎ (m' ≡ remove own m)
    → Kept m' (remove_at i ids) id
removed-Kept m m' i own id ids (there, others) at_i (inl same) =
    (subst (λ x. HasEntry x id) (sym same) there, All-remove_at (λ j. j ≢ id) i ids others)
removed-Kept m m' i own id ids (there, others) at_i (inr less) = (
  subst (λ x. HasEntry x id) (sym less)
      (remove-HasEntry m own id (λ e. All-get_elem? (λ j. j ≢ id) i own ids others at_i (sym e))
        there),
  All-remove_at (λ j. j ≢ id) i ids others,
)

module _ {Hash Tree : Type 0} (services : Services Hash Tree) where
  land-IsKept :
      (s : Server Hash Tree) (i : ℕ) (stage : Stage Hash) (o : Outcome Hash Tree) (id : String)
      → IsKept s id
      → get_elem? s.requests i ≡ some stage
      → Turned s.bridge stage o
      → IsKept (land i s o) id
  unfolding land
  land-IsKept s i stage (stays b stage') id h at_i (same, kept, _) =
      rw (map-set_at entry_of i stage stage' s.requests at_i same, kept) h
  land-IsKept s i stage (answers b reply) id h at_i (kept, _) =
      rw (map-remove_at entry_of i s.requests) (
        removed-Kept s.bridge.status_map b.status_map i (entry_of stage) id _ h
          (get_elem?-map entry_of i stage s.requests at_i) kept)
  land-IsKept s i stage (vanishes b) id h at_i (kept, _) =
      rw (map-remove_at entry_of i s.requests) (
        removed-Kept s.bridge.status_map b.status_map i (entry_of stage) id _ h
          (get_elem?-map entry_of i stage s.requests at_i) kept)

  post_blob-IsKept :
      (s : Server Hash Tree) (out_id : String) (header : Option (List ℕ)) (now : ℕ) (id : String)
      → IsKept s id
      → IsKept (post_blob services s out_id header now) id
  unfolding post_blob
  post_blob-IsKept s out_id header now id h = elim (Result-cases (check_length services header)) [
    | inr (code, e) ↦ rw (e, post_blob) h
    | inl ((declared, n), e) ↦ elim (Result-cases (admission_new services s.bridge out_id now)) [
      | inr (code, e') ↦ rw (e, post_blob) (rw e' h)
      | inl ((vid, b), e') ↦
          let (free, (status, fresh, after)) =
            admission_new-vacant services s.bridge b out_id vid now e' in
          let starts : List (Stage Hash) = admitted out_id vid declared n ∷ [] in
          rw (e, post_blob)
            (rw (e', map-append entry_of s.requests starts, after)
              (
                insert-HasEntry s.bridge.status_map vid id (status ∷ []) h.0,
                All-append (λ j. j ≢ id) (map entry_of s.requests) (vid ∷ []) h.1
                    (λ same. h.0 (ap (λ k. lookup k s.bridge.status_map) (sym same) ∙ free), tt),
              ))
    ]
  ]

  pub serve-IsKept :
      (s : Server Hash Tree) (a : Action) (id : String)
      → IsKept s id
      → IsKept (serve services s a) id
  unfolding serve
  serve-IsKept s (post out_id header now) id h = post_blob-IsKept s out_id header now id h
  serve-IsKept s (go i t) id h = elim (Option-cases (get_elem? s.requests i)) [
    | inl gone ↦ rw (gone, serve) h
    | inr (stage, at_i) ↦
        rw (at_i, serve) (land-IsKept s i stage _ id h at_i (turn-Turned services s.bridge stage t))
  ]

  hand_over_ok :
      (u : Upload Hash) (r : Result StatusCode (AdmittedBlob Hash Tree))
      (b b' : BridgeState Hash Tree) (answer : StatusCode × String)
      → hand_over u r b ≡ answers b' (ok answer)
      → b'.status_map ≡ b.status_map
  unfolding hand_over give_up admission_drop send_admission
  hand_over_ok u (err code) b b' answer h = absurd (cc)
  hand_over_ok u (ok blob) b b' answer h = ground arith

  -- The end of an upload that is answered with success leaves its entry to the map.
  pub created-IsKept :
      (s : Server Hash Tree) (i : ℕ) (u : Upload Hash) (b' : BridgeState Hash Tree)
      (answer : StatusCode × String)
      → IsExclusive s
      → get_elem? s.requests i ≡ some (reading u)
      → turn services s.bridge (reading u) end_of_body ≡ answers b' (ok answer)
      → IsKept (serve services s (go i end_of_body)) u.validated_id
  unfolding serve land turn
  created-IsKept s i u b' answer (apart, there) at_i h =
      let at_entry = get_elem?-map entry_of i (reading u) s.requests at_i in
      rw (at_i, serve)
        (rw h (
          rw (map-remove_at entry_of i s.requests) (
            rw (hand_over_ok u (assemble services u) s.bridge b' answer h) (
              All-get_elem? (HasEntry s.bridge.status_map) i u.validated_id _ there at_entry,
              remove_at-ne i u.validated_id _ apart at_entry,
            ))))
