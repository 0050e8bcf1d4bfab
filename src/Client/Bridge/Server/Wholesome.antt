-- ===== src/Client/Bridge/Server/Wholesome.antt =====
-- bin/client/src/bridge.rs: the blobs on their way from the requests of `new_blob` that run at the same time.
use mathlib.Core.List.{Mem, mem-cons_of_mem, not-mem-nil}
use gozara.Base.{
  ℕ, ◌≡◌, refl, sym, subst, String, List, [], ◌∷◌, ◌++◌, Option, none, some, ok, err, inl, inr, All,
  All-append, arith, Option-cases, Result-cases, get_elem?, string_eq,
}
use gozara.Base.Positions.{
  set_at, remove_at, All-map_to, Pairwise, Pairwise-get_elem?, Pairwise-set_at, Pairwise-remove_at,
  Pairwise-snoc,
}
use gozara.Base.Maps.{lookup}
use gozara.Client.Messages.{ToBridge, update_status}
use gozara.Client.Services.{Services}
use gozara.Client.Bridge.{BridgeState, admission_new, handle_message}
use gozara.Client.Bridge.Upload.{check_length}
use gozara.Client.Bridge.Upload.Admitted.{check_length-IsAllowed}
use gozara.Client.Bridge.Server.{
  Server, admitted, Action, post, go, Outcome, stays, answers, vanishes, land, turn, post_blob,
  serve,
}
use gozara.Client.Bridge.Server.Blobs.{
  ActionFits, CarriesWhole, CarriesWhole-more, Reads, came_in, Sends, Sound, turn-Sound,
}

-- The bodies of the requests: `so_far` is what has come in of each that runs, in their order, and `whole`
-- are those of the requests that have been answered.
pub record Bodies : Type 0 where
  pub so_far : List (List ℕ)
  pub whole : List (List ℕ)

module _ {Hash Tree : Type 0} (services : Services Hash Tree) where
  open services use {parse_id}

  -- What the bodies are with the next action: a request that begins has nothing, and one that ends with an
  -- answer has brought its body.
  abbrev lands_in : ℕ → List ℕ → Outcome Hash Tree → Bodies → Bodies
  lands_in i body (stays b stage) l = record l { so_far = set_at i body l.so_far }
  lands_in i body (answers b reply) l = record {
    so_far = remove_at i l.so_far;
    whole = body ∷ l.whole;
  }
  lands_in i body (vanishes b) l = record l { so_far = remove_at i l.so_far }

  abbrev posts_in : Server Hash Tree → String → Option (List ℕ) → ℕ → Bodies → Bodies
  posts_in s id header now l = elim (check_length services header) [
    | err code ↦ l
    | ok allowed ↦ elim (admission_new services s.bridge id now) [
      | err code ↦ l
      | ok entered ↦ record l { so_far = l.so_far ++ [] ∷ [] }
    ]
  ]

  abbrev pub serves_in : Server Hash Tree → Action → Bodies → Bodies
  serves_in s (post id header now) l = posts_in s id header now l
  serves_in s (go i t) l = elim (get_elem? s.requests i) [
    | none ↦ l
    | some stage ↦ elim (get_elem? l.so_far i) [
      | none ↦ l
      | some body ↦ lands_in i (came_in stage t body) (turn services s.bridge stage t) l
    ]
  ]

  -- Each request has read the body that came in, and each blob on its way is a whole one.
  abbrev pub IsWholesome : Server Hash Tree → Bodies → Type 0
  IsWholesome s l =
      Pairwise (Reads services) s.requests l.so_far
      × All (CarriesWhole services l.whole) s.bridge.tx_admission

  pub Sends-CarriesWhole :
      (whole more : List (List ℕ)) (b b' : BridgeState Hash Tree)
      → ((body : List ℕ) → Mem body whole → Mem body more)
      → Sends services more b b'
      → All (CarriesWhole services whole) b.tx_admission
      → All (CarriesWhole services more) b'.tx_admission
  Sends-CarriesWhole whole more b b' g (inl same) h =
      subst (All (CarriesWhole services more)) (sym same) (
        All-map_to (CarriesWhole services whole) (CarriesWhole services more) b.tx_admission
          (λ m. CarriesWhole-more services whole more m g) h)
  Sends-CarriesWhole whole more b b' g (inr (m, carried, longer)) h =
      subst (All (CarriesWhole services more)) (sym longer) (
        All-append (CarriesWhole services more) b.tx_admission (m ∷ [])
          (All-map_to (CarriesWhole services whole) (CarriesWhole services more) b.tx_admission
            (λ m. CarriesWhole-more services whole more m g) h)
          (carried, tt))

  -- A step that has nothing to do with a body.
  pub Sends-other :
      (whole : List (List ℕ)) (b b' : BridgeState Hash Tree)
      → Sends services [] b b'
      → Sends services whole b b'
  Sends-other whole b b' (inl same) = inl same
  Sends-other whole b b' (inr (m, carried, longer)) =
      inr (
        m,
        CarriesWhole-more services [] whole m (λ body k. absurd (not-mem-nil k)) carried,
        longer,
      )

  land-IsWholesome :
      (s : Server Hash Tree) (i : ℕ) (body : List ℕ) (o : Outcome Hash Tree) (l : Bodies)
      → Sound services l.whole s.bridge body o
      → IsWholesome s l
      → IsWholesome (land i s o) (lands_in i body o l)
  unfolding land
  land-IsWholesome s i body (stays b stage') l (reads, sends) h = (
    Pairwise-set_at (Reads services) i stage' body s.requests l.so_far reads h.0,
    Sends-CarriesWhole l.whole l.whole s.bridge b (λ x k. k) sends h.1,
  )
  land-IsWholesome s i body (answers b reply) l sends h = (
    Pairwise-remove_at (Reads services) i s.requests l.so_far h.0,
    Sends-CarriesWhole l.whole (body ∷ l.whole) s.bridge b (λ x k. mem-cons_of_mem body k) sends
        h.1,
  )
  land-IsWholesome s i body (vanishes b) l sends h = (
    Pairwise-remove_at (Reads services) i s.requests l.so_far h.0,
    Sends-CarriesWhole l.whole l.whole s.bridge b (λ x k. k) sends h.1,
  )

  admission_new-valid :
      (b b' : BridgeState Hash Tree) (id vid : String) (now : ℕ)
      → admission_new services b id now ≡ ok (vid, b')
      → (parse_id id ≡ some vid) × (b'.tx_admission ≡ b.tx_admission)
  unfolding admission_new
  admission_new-valid b b' id vid now h = (ground arith, ground arith)

  post_blob-IsWholesome :
      (s : Server Hash Tree) (id : String) (header : Option (List ℕ)) (now : ℕ) (l : Bodies)
      → IsWholesome s l
      → IsWholesome (post_blob services s id header now) (posts_in s id header now l)
  unfolding post_blob
  post_blob-IsWholesome s id header now l h = elim (Result-cases (check_length services header)) [
    | inr (code, e) ↦ rw (e, post_blob, posts_in) h
    | inl ((declared, n), e) ↦ elim (Result-cases (admission_new services s.bridge id now)) [
      | inr (code, e') ↦ rw (e, post_blob, posts_in) (rw (e', posts_in) h)
      | inl ((vid, b), e') ↦
          let (valid, same) = admission_new-valid s.bridge b id vid now e' in
          let allowed = (check_length-IsAllowed services header declared n e).1 in
          rw (e, post_blob, posts_in)
            (rw (e', same)
              (
                Pairwise-snoc (Reads services) (admitted id vid declared n) [] s.requests l.so_far
                    (valid, allowed, refl) h.0,
                h.1,
              ))
    ]
  ]

  pub serve-IsWholesome :
      (s : Server Hash Tree) (a : Action) (l : Bodies)
      → ActionFits a
      → IsWholesome s l
      → IsWholesome (serve services s a) (serves_in s a l)
  unfolding serve
  serve-IsWholesome s (post id header now) l fits h = post_blob-IsWholesome s id header now l h
  serve-IsWholesome s (go i t) l fits h = elim (Option-cases (get_elem? s.requests i)) [
    | inl gone ↦ rw (gone, serve, serves_in) h
    | inr (stage, at_i) ↦
        let (body, there, reads) =
          Pairwise-get_elem? (Reads services) i stage s.requests l.so_far h.0 at_i in
        rw (at_i, there, serve, serves_in)
          (land-IsWholesome s i (came_in stage t body) _ l
            (turn-Sound services l.whole s.bridge stage t body fits reads) h)
  ]

  pub handle_message-Sends :
      (b : BridgeState Hash Tree) (now : ℕ) (m : ToBridge)
      → (handle_message b now m).tx_admission ≡ b.tx_admission
  unfolding handle_message
  handle_message-Sends b now (update_status id status) =
      elim (Option-cases (lookup id b.status_map)) [
        | inl absent ↦ rw (absent, handle_message) refl
        | inr (l, there) ↦ rw (there, handle_message) refl
      ]
