-- ===== src/Client/Coordinator/Order/Keeps.antt =====
-- bin/client/src/coordinator.rs: the operations that leave the queue of blobs as it is.
use gozara.Base.{
  ℕ, ◌≡◌, refl, sym, ◌∙◌, subst, List, [], ◌∷◌, some, ◌==◌, nat_eq, Bool-cases, Option-cases, inl,
  inr, ◌⊎◌, arith,
}
use gozara.Peyk.Protocol.{
  HandlerMessage, would_store, request, response, Response, issued_storage_permit,
}
use gozara.Client.Coordinator.{LocalBlob, UploadTask, Pipeline, request_storage_permits}
use gozara.Client.Coordinator.Assign.{eligible_peers, assign_blob, assign_chunks}
use gozara.Client.Coordinator.Events.{
  take_task, UploadResult, pushed, push_failed, timed_out, stale, handle_response, handle_swarm,
  report_upload, end_upload,
}
use gozara.Client.Coordinator.Order.{Moves, stay, view, IsBusy, Keeps, Goes}

module _ {Hash Tree : Type 0} where
  pub request-Keeps : (now : ℕ) (p : Pipeline Hash Tree) → Keeps p (request_storage_permits now p)
  unfolding request_storage_permits
  request-Keeps now p = ground arith

  pub assign_blob-Keeps :
      (now : ℕ) (peers : List ℕ) (blob : LocalBlob Hash Tree) (p : Pipeline Hash Tree)
      → p.current_blob ≡ some blob
      → Keeps p (assign_blob now peers blob p)
  unfolding assign_blob
  assign_blob-Keeps now [] blob p h = (refl, refl, λ e. e)
  assign_blob-Keeps now (peer ∷ peers) blob p h = rw h (refl, refl, λ e. absurd (ground arith))

  -- The three ways of `assign_chunks`.
  pub assign_chunks-cases :
      (now : ℕ) (p : Pipeline Hash Tree)
      → (assign_chunks now p ≡ p)
        ⊎ ((blob : LocalBlob Hash Tree) × (p.current_blob ≡ some blob)
            × (assign_chunks now p ≡ assign_blob now (eligible_peers now p) blob p))
  unfolding assign_chunks
  assign_chunks-cases now p = elim (Bool-cases (p.upload_allowance == 0)) [
    | inl empty ↦ inl (rw empty refl)
    | inr left ↦ elim (Option-cases p.current_blob) [
      | inl idle ↦ inl (ground arith)
      | inr (blob, busy) ↦ inr (blob, busy, ground arith)
    ]
  ]

  pub assign_chunks-Keeps : (now : ℕ) (p : Pipeline Hash Tree) → Keeps p (assign_chunks now p)
  assign_chunks-Keeps now p = elim (assign_chunks-cases now p) [
    | inl same ↦ rw same (refl, refl, λ e. e)
    | inr (blob, busy, assigned) ↦
        rw assigned (assign_blob-Keeps now (eligible_peers now p) blob p busy)
  ]

  pub stale-Keeps : (now : ℕ) (p : Pipeline Hash Tree) → Keeps p (stale now p)
  unfolding stale request_storage_permits
  stale-Keeps now p = ground arith

  pub handle_swarm-Keeps :
      (now : ℕ) (m : HandlerMessage) (p : Pipeline Hash Tree) → Keeps p (handle_swarm now m p)
  unfolding handle_swarm handle_response
  handle_swarm-Keeps now (would_store peer_id) p = (refl, refl, λ e. e)
  handle_swarm-Keeps now (request peer_id request_id r channel) p = (refl, refl, λ e. e)
  handle_swarm-Keeps now (response peer_id request_id (issued_storage_permit valid_for)) p =
      assign_chunks-Keeps now _
  handle_swarm-Keeps now (response peer_id request_id (Response.blob_meta id root chunks)) p =
      (refl, refl, λ e. e)

  pub report_upload-Keeps :
      (now : ℕ) (task : UploadTask Hash) (r : UploadResult) (p : Pipeline Hash Tree)
      → Keeps p (report_upload now task r p)
  unfolding report_upload
  report_upload-Keeps now task pushed p = (refl, refl, λ e. e)
  report_upload-Keeps now task push_failed p = (refl, refl, λ e. e)
  report_upload-Keeps now task timed_out p = (refl, refl, λ e. e)

  pub end_upload-Keeps :
      (now i : ℕ) (r : UploadResult) (p : Pipeline Hash Tree) → Keeps p (end_upload now i r p)
  unfolding end_upload
  end_upload-Keeps now i r p = elim (Option-cases (take_task i p.uploads)) [
    | inl none' ↦ rw (none', end_upload) (refl, refl, λ e. e)
    | inr ((task, others), found) ↦ rw (found, end_upload) (report_upload-Keeps now task r _)
  ]

  pub Goes-Keeps : (p p' : Pipeline Hash Tree) → IsBusy p → Keeps p p' → Goes [] p p'
  Goes-Keeps p p' busy (same, rest, idle) = (
    subst (λ q. Moves [] (view p) q) (sym same) (stay (view p)),
    elim busy [ inl empty ↦ inl (rest ∙ empty) | inr working ↦ inr (λ e. working (idle e)) ],
  )
