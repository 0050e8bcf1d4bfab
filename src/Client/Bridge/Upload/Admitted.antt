-- ===== src/Client/Bridge/Upload/Admitted.antt =====
-- bin/client/src/bridge.rs, `new_blob`: what an upload that is admitted has stored and sent on.
use gozara.Base.{
  ℕ, ◌%◌, ◌^◌, ◌≤◌, ◌<◌, ◌≡◌, refl, sym, ap, ◌∙◌, String, List, [], ◌∷◌, ◌++◌, map, Option, none,
  some, Result, ok, err, arith, Result-cases, inl, inr, ◌>>=◌, length, All, string_eq,
}
use gozara.Base.Maps.{lookup}
use gozara.Client.Messages.{AdmittedBlob, ToPipeline}
use gozara.Client.Services.{Services}
use gozara.Client.Bridge.{
  BridgeState, StatusCode, send_admission, admission_drop, created_201, max_blob_size,
  total_chunk_budget,
}
use gozara.Client.Bridge.Upload.{
  Frame, Upload, check_length, content_length, reserve, settle, upload, new_blob, receive_all,
  assemble, div_ceil,
}
use gozara.Client.Bridge.Upload.Reserve.{Reserved, reserve-Reserved, reserved_state, new_upload}
use gozara.Client.Bridge.Upload.Body.{
  body_of, SameUpload, FitsMemory, IsData, HasRead, ReadAll, receive_all-ReadAll,
}
use gozara.Client.Bridge.Upload.Blob.{AreChunks, IsBlobOf, assemble-IsBlobOf}

module _ {Hash Tree : Type 0} (services : Services Hash Tree) where
  open services use {parse_id, from_leaves, root, runs, chunk_size}

  -- A length within the limits, and the chunks that it takes.
  abbrev pub IsAllowed : ℕ → ℕ → Type 0
  IsAllowed declared n =
      (0 < declared)
      × (declared ≤ max_blob_size)
      × (n ≡ div_ceil declared chunk_size)
      × (n ≤ total_chunk_budget)

  pub check_length-IsAllowed :
      (header : Option (List ℕ)) (declared n : ℕ)
      → check_length services header ≡ ok (declared, n)
      → (content_length services header ≡ some declared) × IsAllowed declared n
  unfolding check_length
  check_length-IsAllowed header declared n h = ground arith

  pub check_length_allowed :
      (header : Option (List ℕ)) (declared n : ℕ)
      → content_length services header ≡ some declared
      → IsAllowed declared n
      → check_length services header ≡ ok (declared, n)
  unfolding check_length
  check_length_allowed header declared n h k = ground (arith, h)

  -- What an admission leaves behind: the entry, the permits taken, and one message with the blob.
  pub record Admission (state state' : BridgeState Hash Tree) (id : String)
      (header : Option (List ℕ)) (body : List Frame) (now : ℕ) (blob : AdmittedBlob Hash Tree)
      (validated_id : String) : Type 0 where
    pub accepted : parse_id id ≡ some validated_id
    pub vacant : lookup validated_id state.status_map ≡ none
    pub complete : All IsData body
    pub declared : content_length services header ≡ some (length (body_of body))
    pub not_empty : 0 < length (body_of body)
    pub bounded : length (body_of body) ≤ max_blob_size
    pub cut : AreChunks services blob.chunks (body_of body)
    pub tree : blob.merkle_tree ≡ from_leaves (map (λ p. p.0) blob.chunks)
    pub rooted : root blob.merkle_tree ≡ some blob.root_hash
    pub named : blob.id ≡ id
    pub paid : blob.allowance ≡ length blob.chunks
    pub affordable : blob.allowance ≤ state.admission_budget
    pub after : state' ≡ record (reserved_state services state validated_id blob.allowance now) {
      tx_admission = state.tx_admission ++ ToPipeline.new_blob blob ∷ [];
    }

  settle-eq-ok :
      (u : Upload Hash) (s s' : BridgeState Hash Tree)
      (r : Result StatusCode (AdmittedBlob Hash Tree)) (code : StatusCode) (out_id : String)
      → settle services u s r ≡ (ok (code, out_id), s')
      → (blob : AdmittedBlob Hash Tree) × (r ≡ ok blob)
        × (code ≡ created_201)
        × (out_id ≡ u.id)
        × (s' ≡ record s { tx_admission = s.tx_admission ++ ToPipeline.new_blob blob ∷ [] })
  unfolding settle send_admission admission_drop
  settle-eq-ok u s s' (err code') code out_id h = absurd (ground arith)
  settle-eq-ok u s s' (ok blob) code out_id h =
      (blob, refl, ground arith, ground arith, ground arith)

  -- The answer of an upload that was admitted, with what it has left behind.
  abbrev pub IsAdmitted :
      BridgeState Hash Tree
      → BridgeState Hash Tree
      → String
      → Option (List ℕ)
      → List Frame
      → ℕ
      → StatusCode
      → String
      → Type 0
  IsAdmitted state state' id header body now code out_id =
      (code ≡ created_201)
      × (out_id ≡ id)
      × ((validated_id : String) × (blob : AdmittedBlob Hash Tree) × Admission state state' id
            header body now blob validated_id)

  pub started_reads :
      (id validated_id : String) (declared n : ℕ)
      → IsAllowed declared n
      → HasRead services (new_upload services id validated_id declared (n % 2 ^ 32)) []
  started_reads id validated_id declared n ha =
      ((services.chunk_size_pos, tt, refl), refl, omega arith, ha.1)

  read_blob :
      (u : Upload Hash) (body : List Frame) (blob : AdmittedBlob Hash Tree)
      → All FitsMemory body
      → HasRead services u []
      → (receive_all services u body >>= λ v. assemble services v) ≡ ok blob
      → (v : Upload Hash) × SameUpload u v
        × IsBlobOf services v (body_of body) blob
        × All IsData body
  read_blob u body blob hf h k =
      go (receive_all services u body) (receive_all-ReadAll services u [] body hf h) k
    where
      go :
          (r : Result StatusCode (Upload Hash))
          → ReadAll services u [] body r
          → (r >>= λ v. assemble services v) ≡ ok blob
          → (v : Upload Hash) × SameUpload u v
            × IsBlobOf services v (body_of body) blob
            × All IsData body
      go (err c) a e = absurd (cc)
      go (ok v) (same, read, data_only) e =
          (v, same, assemble-IsBlobOf services v (body_of body) blob read e, data_only)

  upload-IsAdmitted :
      (state state' : BridgeState Hash Tree) (id : String) (header : Option (List ℕ))
      (declared n now : ℕ) (body : List Frame) (code : StatusCode) (out_id : String)
      (r : Result StatusCode (Upload Hash) × BridgeState Hash Tree)
      → content_length services header ≡ some declared
      → IsAllowed declared n
      → All FitsMemory body
      → Reserved services state id declared n now r
      → upload services body r ≡ (ok (code, out_id), state')
      → IsAdmitted state state' id header body now code out_id
  unfolding upload
  upload-IsAdmitted state state' id header declared n now body code out_id (err c, s) hc ha hf hr
        h =
      absurd (ground arith)
  upload-IsAdmitted state state' id header declared n now body code out_id (ok u, s) hc ha hf
        (good, free, enough, started, reserved) h =
      let (blob, read, created, named, after) = settle-eq-ok u s state' _ code out_id h in
      let start : HasRead services u [] =
        rw started (started_reads id u.validated_id declared n ha) in
      let (v, same, read_all, data_only) = read_blob u body blob hf start read in
      let (cut, tree, rooted, id_kept, allowance_kept, len) = read_all in
      let permits : n % 2 ^ 32 ≡ n = omega arith in
      let paid : blob.allowance ≡ n % 2 ^ 32 =
        allowance_kept ∙ same.3 ∙ ap (λ w. w.allowance) started in
      let length_declared : length (body_of body) ≡ declared =
        len ∙ same.2 ∙ ap (λ w. w.declared_blob_len) started in
      (
        created,
        named ∙ ap (λ w. w.id) started,
        (
          u.validated_id,
          blob,
          record {
            accepted = good;
            vacant = free;
            complete = data_only;
            declared = hc ∙ ap some (sym length_declared);
            not_empty = omega arith;
            bounded = omega arith;
            cut = cut;
            tree = tree;
            rooted = rooted;
            named = id_kept ∙ same.0 ∙ ap (λ w. w.id) started;
            paid =
                paid
                ∙ permits
                ∙ ha.2
                ∙ ap (λ k. div_ceil k chunk_size) (sym length_declared)
                ∙ sym cut.2;
            affordable = omega arith;
            after = rw (after, reserved, paid) refl;
          },
        ),
      )

  -- An upload whose body frames are each shorter than 2 ^ 63 bytes and that `new_blob` answers
  -- with success is answered with `201` and the request's id. The id is valid and its entry
  -- was free, no frame of the body failed or timed out, the declared length is the body's and
  -- lies between 1 and `max_blob_size`. The bridge has taken one permit for each chunk,
  -- entered a pending status, and sent one blob: the body cut into chunks that are full but
  -- for the last, each with its hash, their tree and its root.
  pub new_blob-IsAdmitted :
      (state state' : BridgeState Hash Tree) (id : String) (header : Option (List ℕ))
      (body : List Frame) (now : ℕ) (code : StatusCode) (out_id : String)
      → All FitsMemory body
      → new_blob services state id header body now ≡ (ok (code, out_id), state')
      → IsAdmitted state state' id header body now code out_id
  unfolding new_blob
  new_blob-IsAdmitted state state' id header body now code out_id hf h =
      elim (Result-cases (check_length services header)) [
        | inl ((declared, n), e) ↦
            let (hc, ha) = check_length-IsAllowed header declared n e in
            upload-IsAdmitted state state' id header declared n now body code out_id
              (reserve services state id declared n now) hc ha hf
              (reserve-Reserved services state id declared n now) (rw (e, new_blob) at h)
        | inr (c, e) ↦ absurd (ground (arith, e))
      ]
