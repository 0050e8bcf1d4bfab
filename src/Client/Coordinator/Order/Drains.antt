-- ===== src/Client/Coordinator/Order/Drains.antt =====
-- bin/client/src/coordinator.rs, `run`: the news of the uploads of a whole blob, message by message.
use gozara.Base.{
  ℕ, ◌+◌, ◌≡◌, refl, sym, ap, ◌∙◌, subst, String, List, [], ◌∷◌, ◌++◌, map, true, false, none, some,
  Eq, arith, Bool-cases, Option-cases, inl, inr,
}
use gozara.Base.Maps.{lookup}
use gozara.Client.Messages.{Status, update_status}
use gozara.Client.Services.{Services}
use gozara.Client.Coordinator.{
  finalized, Chunk, InternalMessage, update_chunk_status, LocalBlob, Pipeline,
}
use gozara.Client.Coordinator.Assign.{assign_blob, assign_chunks, eligible_peers}
use gozara.Client.Coordinator.Assign.Turns.{assign_loop-AllMarked}
use gozara.Client.Coordinator.Events.{
  Event, running, internal, all_finalized, after_update, update_status_of, handle_internal, step,
  run,
}
use gozara.Client.Coordinator.Order.{Queue, view}
use gozara.Client.Coordinator.Order.Keeps.{assign_chunks-Keeps, assign_chunks-cases}
use gozara.Client.Coordinator.Order.Loops.{with_status}
use gozara.Client.Coordinator.Order.Completes.{finalized_view, step-completes}
use gozara.Client.Coordinator.Order.Coverage.{
  IsGood, not-IsGood, AllMarked-IsGood, modify-absent, modify-IsGood,
}

-- The queue without its first blob, of which the bridge was told.
abbrev pub finish_waiting : List (String × ℕ) → Queue → Queue
finish_waiting [] q = q
finish_waiting ((id, allowance) ∷ rest) q = record q {
  waiting = rest;
  told = q.told ++ update_status id Status.finalized ∷ [];
  returned = q.returned + allowance;
}

abbrev pub finish_first : Queue → Queue
finish_first q = finish_waiting q.waiting q

-- News of an upload that has succeeded: the chunk and its new owner, when the message was sent, and when the
-- loop takes it.
pub record News (Hash : Type 0) : Type 0 where
  pub hash : Hash
  pub owner : ℕ
  pub sent_at : ℕ
  pub taken_at : ℕ

module _ {Hash : Type 0} where
  abbrev pub messages_of : List (News Hash) → List (InternalMessage Hash)
  messages_of news = map (λ n. update_chunk_status n.hash (finalized n.owner) n.sent_at) news

  abbrev pub owners_of : List (News Hash) → List (Hash × ℕ)
  owners_of news = map (λ n. (n.hash, n.owner)) news

module _ {Hash Tree : Type 0} where
  -- The rounds that take the news, one after the other.
  abbrev pub rounds : List (News Hash) → List (ℕ × Event Hash Tree)
  rounds news = map (λ n. (n.taken_at, internal)) news

  -- The assignment leaves the news, and the blob with the chunks that wait for them.
  abbrev Waits : List (Hash × ℕ) → List (InternalMessage Hash) → Pipeline Hash Tree → Type 0
  Waits news messages p =
      (p.rx_internal ≡ messages)
      × ((blob : LocalBlob Hash Tree) × (p.current_blob ≡ some blob) × IsGood news blob.chunks)

  assign_blob-Waits :
      (now : ℕ) (peers : List ℕ) (news : List (Hash × ℕ)) (blob : LocalBlob Hash Tree)
      (p : Pipeline Hash Tree)
      → p.current_blob ≡ some blob
      → IsGood news blob.chunks
      → Waits news p.rx_internal (assign_blob now peers blob p)
  unfolding assign_blob
  assign_blob-Waits now [] news blob p busy good = (refl, (blob, busy, good))
  assign_blob-Waits now (peer ∷ peers) news blob p busy good =
      let marked =
        assign_loop-AllMarked now (peer ∷ peers) p.upload_allowance 0 blob.chunks (omega arith) in
      (refl, (_, refl, AllMarked-IsGood now (peer ∷ peers) news blob.chunks _ marked good))

  assign_chunks-Waits :
      (now : ℕ) (news : List (Hash × ℕ)) (blob : LocalBlob Hash Tree) (p : Pipeline Hash Tree)
      → p.current_blob ≡ some blob
      → IsGood news blob.chunks
      → Waits news p.rx_internal (assign_chunks now p)
  assign_chunks-Waits now news blob p busy good = elim (assign_chunks-cases now p) [
    | inl same ↦ subst (Waits news p.rx_internal) (sym same) (refl, (blob, busy, good))
    | inr (b, busy', assigned) ↦
        let is_blob : IsGood news b.chunks =
          subst (λ o. elim o [ none ↦ ⊥ | some c ↦ IsGood news c.chunks ]) (sym busy ∙ busy')
            good in
        subst (Waits news p.rx_internal) (sym assigned)
          (assign_blob-Waits now (eligible_peers now p) news b p busy' is_blob)
  ]

  finalized_view-first :
      (blob : LocalBlob Hash Tree) (p : Pipeline Hash Tree)
      → p.current_blob ≡ some blob
      → p.bridge_open ≡ true
      → finalized_view blob p ≡ finish_first (view p)
  finalized_view-first blob p busy open' = rw (busy, open') refl

module _ {Hash Tree : Type 0} ⦃hash_eq : Eq Hash⦄ (services : Services Hash Tree) where
  -- After the rounds that take the first of the news, the first blob of the queue is finalized.
  abbrev pub Drains : List (News Hash) → Pipeline Hash Tree → Type 0
  Drains news p =
      (first rest : List (News Hash)) × (p' : Pipeline Hash Tree) × (news ≡ first ++ rest)
      × (run services p (rounds first) ≡ running p')
      × (view p' ≡ finish_first (view p))

  after_round :
      (n : News Hash) (news : List (News Hash)) (p q : Pipeline Hash Tree)
      → step services p n.taken_at internal ≡ running q
      → view q ≡ view p
      → Drains news q
      → Drains (n ∷ news) p
  unfolding run
  after_round n news p q h same (first, rest, p', split, reached, seen) =
      (n ∷ first, rest, p', ap (λ l. n ∷ l) split, rw (h, run) reached, seen ∙ ap finish_first same)

  last_round :
      (n : News Hash) (news : List (News Hash)) (p q : Pipeline Hash Tree)
      → step services p n.taken_at internal ≡ running q
      → view q ≡ finish_first (view p)
      → Drains (n ∷ news) p
  unfolding run
  last_round n news p q h seen = (n ∷ [], news, q, refl, rw (h, run) refl, seen)

  -- A message about a chunk that leaves another one open.
  open_round :
      (now at owner : ℕ) (hash : Hash) (chunk : Chunk) (blob : LocalBlob Hash Tree)
      (messages : List (InternalMessage Hash)) (p : Pipeline Hash Tree)
      → p.current_blob ≡ some blob
      → p.rx_internal ≡ update_chunk_status hash (finalized owner) at ∷ messages
      → lookup hash blob.chunks ≡ some chunk
      → all_finalized (with_status now hash (finalized owner) blob).chunks ≡ false
      → step services p now internal
        ≡ running (
            assign_chunks now (record p {
              rx_internal = messages;
              current_blob = some (with_status now hash (finalized owner) blob);
            }))
  unfolding step handle_internal update_status_of after_update
  open_round now at owner hash chunk blob messages p busy waiting found still_open =
      rw (waiting, step) (rw (busy, found, update_status_of) (rw (still_open, after_update) refl))

  -- A message about a chunk of another blob.
  stray_round :
      (now at owner : ℕ) (hash : Hash) (blob : LocalBlob Hash Tree)
      (messages : List (InternalMessage Hash)) (p : Pipeline Hash Tree)
      → p.current_blob ≡ some blob
      → p.rx_internal ≡ update_chunk_status hash (finalized owner) at ∷ messages
      → lookup hash blob.chunks ≡ none
      → step services p now internal ≡ running (record p { rx_internal = messages })
  unfolding step handle_internal update_status_of
  stray_round now at owner hash blob messages p busy waiting absent =
      rw (waiting, step)
        (rw (busy, absent, update_status_of)
          (ap (λ o. running (record p { rx_internal = messages; current_blob = o })) busy))

  -- If the internal channel begins with messages of successful uploads that name every chunk
  -- of the blob in work that is not finalized yet, sent at any times, in any order and with
  -- strays among them, where at least one chunk is not finalized, the chunks have different
  -- hashes and the bridge receives, then the rounds that take the first so many of these
  -- messages, each at a time of its own, finalize the blob: the loop has not panicked, the
  -- bridge is told, the blob's permits are back, and the blobs behind it wait in their order.
  pub run-Drains :
      (news : List (News Hash)) (later : List (InternalMessage Hash)) (blob : LocalBlob Hash Tree)
      (p : Pipeline Hash Tree)
      → p.current_blob ≡ some blob
      → p.rx_internal ≡ messages_of news ++ later
      → IsGood (owners_of news) blob.chunks
      → p.bridge_open ≡ true
      → Drains news p
  run-Drains [] later blob p busy waiting good open' = absurd (not-IsGood blob.chunks good)
  run-Drains (n ∷ news) later blob p busy waiting good open' =
      let now = n.taken_at in
      let hash = n.hash in
      let owner = n.owner in
      let at = n.sent_at in
      let owners = owners_of news in
      let messages = messages_of news ++ later in
      let changed = with_status now hash (finalized owner) blob in
      let set_status =
        λ (c : Chunk). record c { status = record { at = now; status = finalized owner } } in
      elim (Bool-cases (all_finalized changed.chunks)) [
        | inl complete ↦ elim (Option-cases (lookup hash blob.chunks)) [
          | inl absent ↦ absurd (
              ground (
                arith,
                good.2,
                ap all_finalized (modify-absent hash set_status blob.chunks absent),
              ))
          | inr (chunk, found) ↦
              let (q, reached, seen) =
                step-completes services now at owner hash chunk blob messages p busy waiting found
                  complete open' in
              last_round n news p q reached (seen ∙ finalized_view-first blob p busy open')
        ]
        | inr still_open ↦
            let good' =
              modify-IsGood hash owner owners set_status blob.chunks (λ c. refl) still_open good in
            elim (Option-cases (lookup hash blob.chunks)) [
              | inl absent ↦
                  let q = record p { rx_internal = messages } in
                  after_round n news p q
                    (stray_round now at owner hash blob messages p busy waiting absent) refl
                    (run-Drains news later blob q busy refl
                      (subst (IsGood owners) (modify-absent hash set_status blob.chunks absent)
                        good')
                      open')
              | inr (chunk, found) ↦
                  let q = record p { rx_internal = messages; current_blob = some changed } in
                  let q' = assign_chunks now q in
                  let (same, (blob', busy', good'')) =
                    assign_chunks-Waits now owners changed q refl good' in
                  let kept = (assign_chunks-Keeps now q).0 in
                  after_round n news p q'
                    (open_round now at owner hash chunk blob messages p busy waiting found
                      still_open)
                    (kept ∙ rw busy refl)
                    (run-Drains news later blob' q' busy' same good''
                      (ap (λ v. v.bridge_open) kept ∙ open'))
            ]
      ]
