-- ===== src/Client/Bridge/Server/Entries.antt =====
-- bin/client/src/bridge.rs: the entries of the requests of `new_blob` that run at the same time.
use gozara.Base.{
  refl, ℕ, ◌≡◌, ◌≢◌, sym, ◌∙◌, subst, ap, String, List, [], ◌∷◌, ◌++◌, map, Option, none, some, ok,
  ◌⊎◌, inl, inr, arith, All, All-append, Option-cases, Result-cases, string_eq, get_elem?,
}
use mathlib.Core.List.{map-append}
use gozara.Base.Positions.{
  Distinct, remove_at, map-set_at, map-remove_at, get_elem?-map, All-map_to, All-both,
  All-remove_at, remove_at-Distinct, remove_at-ne, append-Distinct,
}
use gozara.Base.Maps.{lookup, insert, remove, modify, lookup-insert, lookup-remove, lookup-modify}
use gozara.Client.Messages.{pending}
use gozara.Client.Services.{Services}
use gozara.Client.Bridge.{BridgeState, TimestampedStatus, admission_new}
use gozara.Client.Bridge.Upload.{check_length}
use gozara.Client.Bridge.Server.{
  Server, Stage, admitted, Action, post, go, Outcome, stays, answers, vanishes, land, post_blob,
  serve,
}
use gozara.Client.Bridge.Server.Turns.{entry_of, Turned, turn-Turned}

abbrev Map : Type 0
Map = List (String × List TimestampedStatus)

abbrev pub HasEntry : List (String × List TimestampedStatus) → String → Type 0
HasEntry m id = lookup id m ≢ none

pub insert-HasEntry :
    (m : Map) (k id : String) (l : List TimestampedStatus)
    → HasEntry m id
    → HasEntry (insert k l m) id
insert-HasEntry m k id l h e = ground (arith, lookup-insert id k l m)

insert_new-HasEntry :
    (m : Map) (k : String) (l : List TimestampedStatus) → HasEntry (insert k l m) k
insert_new-HasEntry m k l e = ground (arith, lookup-insert k k l m, string_eq.beq_iff k k)

pub remove-HasEntry : (m : Map) (k id : String) → id ≢ k → HasEntry m id → HasEntry (remove k m) id
remove-HasEntry m k id other h e = ground (arith, lookup-remove id k m, string_eq.beq_iff k id)

pub modify-HasEntry :
    (m : Map) (k id : String) (f : List TimestampedStatus → List TimestampedStatus)
    → HasEntry m id
    → HasEntry (modify k f m) id
modify-HasEntry m k id f h e = ground (arith, lookup-modify id k f m, Option-cases (lookup id m))

-- Ids of requests, each different from the others and with its entry in the map.
abbrev pub Exclusive : List (String × List TimestampedStatus) → List String → Type 0
Exclusive m ids = Distinct ids × All (HasEntry m) ids

-- The requests that run have different entries, and each finds its own in the map.
abbrev pub IsExclusive : {Hash Tree : Type 0} → Server Hash Tree → Type 0
IsExclusive s = Exclusive s.bridge.status_map (map entry_of s.requests)

removed-Exclusive :
    (m m' : Map) (i : ℕ) (id : String) (ids : List String)
    → Exclusive m ids
    → get_elem? ids i ≡ some id
    → (m' ≡ m) ⊎ (m' ≡ remove id m)
    → Exclusive m' (remove_at i ids)
removed-Exclusive m m' i id ids (apart, there) at_i (inl same) = (
  remove_at-Distinct i ids apart,
  subst (λ x. All (HasEntry x) (remove_at i ids)) (sym same)
      (All-remove_at (HasEntry m) i ids there),
)
removed-Exclusive m m' i id ids (apart, there) at_i (inr less) = (
  remove_at-Distinct i ids apart,
  subst (λ x. All (HasEntry x) (remove_at i ids)) (sym less)
      (All-map_to (λ j. (j ≢ id) × HasEntry m j) (HasEntry (remove id m)) (remove_at i ids)
        (λ j h. remove-HasEntry m id j h.0 h.1)
        (All-both (λ j. j ≢ id) (HasEntry m) (remove_at i ids) (remove_at-ne i id ids apart at_i)
          (All-remove_at (HasEntry m) i ids there))),
)

new-Exclusive :
    (m : Map) (id : String) (l : List TimestampedStatus) (ids : List String)
    → Exclusive m ids
    → lookup id m ≡ none
    → Exclusive (insert id l m) (ids ++ id ∷ [])
new-Exclusive m id l ids (apart, there) free = (
  append-Distinct id ids
      (All-map_to (HasEntry m) (λ j. j ≢ id) ids (λ j h e. h (ap (λ k. lookup k m) e ∙ free)) there)
      apart,
  All-append (HasEntry (insert id l m)) ids (id ∷ [])
      (All-map_to (HasEntry m) (HasEntry (insert id l m)) ids (λ j h. insert-HasEntry m id j l h)
        there)
      (insert_new-HasEntry m id l, tt),
)

-- A map that loses no entry.
abbrev pub Keeps :
    List (String × List TimestampedStatus) → List (String × List TimestampedStatus) → Type 0
Keeps m m' = (id : String) → HasEntry m id → HasEntry m' id

pub Keeps-Exclusive :
    (m m' : Map) (ids : List String) → Keeps m m' → Exclusive m ids → Exclusive m' ids
Keeps-Exclusive m m' ids keeps (apart, there) =
    (apart, All-map_to (HasEntry m) (HasEntry m') ids keeps there)

module _ {Hash Tree : Type 0} (services : Services Hash Tree) where
  land-IsExclusive :
      (s : Server Hash Tree) (i : ℕ) (stage : Stage Hash) (o : Outcome Hash Tree)
      → IsExclusive s
      → get_elem? s.requests i ≡ some stage
      → Turned s.bridge stage o
      → IsExclusive (land i s o)
  unfolding land
  land-IsExclusive s i stage (stays b stage') h at_i (same, kept, _) =
      rw (map-set_at entry_of i stage stage' s.requests at_i same, kept) h
  land-IsExclusive s i stage (answers b reply) h at_i (kept, _) =
      rw (map-remove_at entry_of i s.requests) (
        removed-Exclusive s.bridge.status_map b.status_map i (entry_of stage) _ h
          (get_elem?-map entry_of i stage s.requests at_i) kept)
  land-IsExclusive s i stage (vanishes b) h at_i (kept, _) =
      rw (map-remove_at entry_of i s.requests) (
        removed-Exclusive s.bridge.status_map b.status_map i (entry_of stage) _ h
          (get_elem?-map entry_of i stage s.requests at_i) kept)

  pub admission_new-vacant :
      (b b' : BridgeState Hash Tree) (id vid : String) (now : ℕ)
      → admission_new services b id now ≡ ok (vid, b')
      → (lookup vid b.status_map ≡ none)
        × ((status : TimestampedStatus) × (status.status ≡ pending)
            × (b'.status_map ≡ insert vid (status ∷ []) b.status_map))
  unfolding admission_new
  admission_new-vacant b b' id vid now h =
      (ground arith, (record { at = now; status = pending }, refl, ground arith))

  post_blob-IsExclusive :
      (s : Server Hash Tree) (id : String) (header : Option (List ℕ)) (now : ℕ)
      → IsExclusive s
      → IsExclusive (post_blob services s id header now)
  unfolding post_blob
  post_blob-IsExclusive s id header now h = elim (Result-cases (check_length services header)) [
    | inr (code, e) ↦ rw (e, post_blob) h
    | inl ((declared, n), e) ↦ elim (Result-cases (admission_new services s.bridge id now)) [
      | inr (code, e') ↦ rw (e, post_blob) (rw e' h)
      | inl ((vid, b), e') ↦
          let (free, (status, fresh, after)) = admission_new-vacant s.bridge b id vid now e' in
          rw (e, post_blob)
            (rw e' (
              rw (map-append entry_of s.requests (admitted id vid declared n ∷ []), after)
                (new-Exclusive s.bridge.status_map vid (status ∷ []) _ h free)))
    ]
  ]

  pub serve-IsExclusive :
      (s : Server Hash Tree) (a : Action) → IsExclusive s → IsExclusive (serve services s a)
  unfolding serve
  serve-IsExclusive s (post id header now) h = post_blob-IsExclusive s id header now h
  serve-IsExclusive s (go i t) h = elim (Option-cases (get_elem? s.requests i)) [
    | inl gone ↦ rw (gone, serve) h
    | inr (stage, at_i) ↦
        rw (at_i, serve)
          (land-IsExclusive s i stage _ h at_i (turn-Turned services s.bridge stage t))
  ]
