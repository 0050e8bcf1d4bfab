-- ===== src/Client/Coordinator/Assign/Peers.antt =====
-- bin/client/src/coordinator.rs, `assign_chunks`: who is given which chunk.
use gozara.Base.{
  ℕ, ◌+◌, ◌%◌, ◌≡◌, ◌<◌, refl, subst, sym, ap, List, [], ◌∷◌, ◌++◌, some, length, take, All, arith,
  Bool-cases, inl, inr, ◌==◌, nat_eq, nat_beq_iff, append-nil,
}
use native.Mathlib.Nat.{mod-lt}
use mathlib.Core.List.{Mem}
use gozara.Client.Coordinator.{Chunk, LocalBlob, UploadTask, Pipeline}
use gozara.Client.Coordinator.Assign.{assign_loop, eligible_peers, assign_blob, assign_chunks}
use gozara.Client.Coordinator.Assign.Turns.{
  due, turns, mem-get_or, assign_loop-uploads, AllMarked, AllMarked-refl, assign_loop-AllMarked,
}

module _ {Hash : Type 0} (now : ℕ) (peers : List ℕ) where
  turns-peers :
      (i : ℕ) (chunks : List (Hash × Chunk))
      → i < length peers
      → All
          (λ (t : UploadTask Hash). Mem t.peer peers × (t.started ≡ now))
          (turns now peers i chunks)
  unfolding turns
  turns-peers i [] h = tt
  turns-peers i ((hash, chunk) ∷ rest) h = (
    (mem-get_or peers i 0 h, refl),
    turns-peers ((i + 1) % length peers) rest (mod-lt _ (omega arith)),
  )

module _ {Hash Tree : Type 0} where
  -- The chunks that are due and for which `upload_allowance` has a permit.
  abbrev pub to_assign : ℕ → LocalBlob Hash Tree → Pipeline Hash Tree → List (Hash × Chunk)
  to_assign now blob p = take p.upload_allowance (due now blob.chunks)

  -- The tasks that have been added go to the peers in turn, one for each chunk to assign, and each
  -- peer's permit is still good. The chunks of the blob are those from before, and a changed one was due and
  -- is in flight to such a peer.
  abbrev pub Assigns : ℕ → LocalBlob Hash Tree → Pipeline Hash Tree → Pipeline Hash Tree → Type 0
  Assigns now blob p p' =
      (p'.uploads ≡ p.uploads ++ turns now (eligible_peers now p) 0 (to_assign now blob p))
      × All (λ (t : UploadTask Hash). Mem t.peer (eligible_peers now p) × (t.started ≡ now))
          (turns now (eligible_peers now p) 0 (to_assign now blob p))
      × ((blob' : LocalBlob Hash Tree) × (p'.current_blob ≡ some blob')
          × AllMarked now (eligible_peers now p) blob.chunks blob'.chunks)

  assign_blob-Assigns :
      (now : ℕ) (peers : List ℕ) (blob : LocalBlob Hash Tree) (p : Pipeline Hash Tree)
      → 0 < length peers
      → eligible_peers now p ≡ peers
      → Assigns now blob p (assign_blob now peers blob p)
  unfolding assign_blob
  assign_blob-Assigns now [] blob p h e = absurd (omega arith)
  assign_blob-Assigns now (peer ∷ peers) blob p h e = rw e (
    ap (λ l. p.uploads ++ l)
        (assign_loop-uploads now (peer ∷ peers) p.upload_allowance 0 blob.chunks),
    turns-peers now (peer ∷ peers) 0 (to_assign now blob p) h,
    (
      record blob {
        chunks =
            (assign_loop now (peer ∷ peers) p.upload_allowance p.upload_allowance 0
              blob.chunks).chunks;
      },
      refl,
      assign_loop-AllMarked now (peer ∷ peers) p.upload_allowance 0 blob.chunks h,
    ),
  )

  none_left :
      (now : ℕ) (blob : LocalBlob Hash Tree) (p : Pipeline Hash Tree)
      → p.current_blob ≡ some blob
      → p.upload_allowance ≡ 0
      → Assigns now blob p p
  unfolding turns
  none_left now blob p busy empty = rw empty (
    sym (append-nil p.uploads),
    tt,
    (blob, busy, AllMarked-refl now (eligible_peers now p) blob.chunks),
  )

  -- With a blob in work and a peer whose storage permit is still good, `assign_chunks` spawns
  -- exactly one task for each due chunk, in the map's order and up to the number of free
  -- permits, with the peers that hold a good permit taken in turn. The blob's chunks keep
  -- their hashes and bytes, and a chunk whose status has changed was due and is now in flight
  -- to such a peer.
  pub assign_chunks-Assigns :
      (now : ℕ) (blob : LocalBlob Hash Tree) (p : Pipeline Hash Tree)
      → p.current_blob ≡ some blob
      → 0 < length (eligible_peers now p)
      → Assigns now blob p (assign_chunks now p)
  unfolding assign_chunks
  assign_chunks-Assigns now blob p busy h = elim (Bool-cases (p.upload_allowance == 0)) [
    | inl empty ↦
        let same : assign_chunks now p ≡ p = ground arith in
        subst (Assigns now blob p) (sym same)
          (none_left now blob p busy ((nat_beq_iff p.upload_allowance 0).0 empty))
    | inr left ↦
        let same : assign_chunks now p ≡ assign_blob now (eligible_peers now p) blob p =
          ground arith in
        subst (Assigns now blob p) (sym same)
          (assign_blob-Assigns now (eligible_peers now p) blob p h refl)
  ]
