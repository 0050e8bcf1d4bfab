-- ===== src/Client/Bridge/Upload/Succeeds.antt =====
-- bin/client/src/bridge.rs, `new_blob`: well-formed uploads.
use gozara.Base.{
  ℕ, ◌%◌, ◌^◌, ◌≤◌, ◌≡◌, refl, String, List, [], ◌∷◌, ◌++◌, true, Option, none, some, ok, arith,
  ◌>>=◌, length, All, string_eq,
}
use gozara.Base.Maps.{lookup}
use gozara.Client.Messages.{AdmittedBlob, ToPipeline}
use gozara.Client.Services.{Services}
use gozara.Client.Bridge.{BridgeState, send_admission, admission_drop, created_201}
use gozara.Client.Bridge.Upload.{
  Frame, Upload, content_length, settle, upload, new_blob, receive_all, assemble,
}
use gozara.Client.Bridge.Upload.Reserve.{reserve_free, reserved_state, new_upload}
use gozara.Client.Bridge.Upload.Body.{
  body_of, FitsMemory, IsData, HasRead, ReadAll, receive_all-ReadAll, receive_all-succeeds,
}
use gozara.Client.Bridge.Upload.Blob.{assemble-succeeds}
use gozara.Client.Bridge.Upload.Admitted.{IsAllowed, check_length_allowed, started_reads}

module _ {Hash Tree : Type 0} (services : Services Hash Tree) where
  open services use {parse_id, runs}

  read_succeeds :
      (u : Upload Hash) (body : List Frame)
      → All FitsMemory body
      → All IsData body
      → ((c : List ℕ) → runs c ≡ true)
      → HasRead services u []
      → length (body_of body) ≡ u.declared_blob_len
      → 1 ≤ length (body_of body)
      → (blob : AdmittedBlob Hash Tree) × ((receive_all services u body >>= λ v.
            assemble services v)
          ≡ ok blob)
  read_succeeds u body hf hd hr h hl hp =
      let (v, e) = receive_all-succeeds services u [] body hf hd hr h (omega arith) in
      rw e (go v (receive_all-ReadAll services u [] body hf h) e)
    where
      go :
          (v : Upload Hash)
          → ReadAll services u [] body (receive_all services u body)
          → receive_all services u body ≡ ok v
          → (blob : AdmittedBlob Hash Tree) × (assemble services v ≡ ok blob)
      go v a e =
          let read = rw e at a in
          assemble-succeeds services v (body_of body) hr read.1 (ground (arith, read.0)) hp

  settle_ok :
      (u : Upload Hash) (s : BridgeState Hash Tree) (blob : AdmittedBlob Hash Tree)
      → s.admission_open ≡ true
      → settle services u s (ok blob) ≡ (
        ok (created_201, u.id),
        record s { tx_admission = s.tx_admission ++ ToPipeline.new_blob blob ∷ [] },
      )
  unfolding settle send_admission admission_drop
  settle_ok u s blob h = ground (arith, h)

  -- An upload under a valid id whose entry is free, with a body that comes whole in frames
  -- shorter than 2 ^ 63 bytes, a declared length equal to the body's and within the limits,
  -- enough permits for its chunks, a coordinator that receives and hashing tasks that end, is
  -- answered with `201`.
  pub new_blob-succeeds :
      (state : BridgeState Hash Tree) (id validated_id : String) (header : Option (List ℕ))
      (body : List Frame) (now n : ℕ)
      → parse_id id ≡ some validated_id
      → lookup validated_id state.status_map ≡ none
      → content_length services header ≡ some (length (body_of body))
      → IsAllowed services (length (body_of body)) n
      → n ≤ state.admission_budget
      → state.admission_open ≡ true
      → All FitsMemory body
      → All IsData body
      → ((c : List ℕ) → runs c ≡ true)
      → (state' : BridgeState Hash Tree) × (new_blob services state id header body now
          ≡ (ok (created_201, id), state'))
  unfolding new_blob upload
  new_blob-succeeds state id vid header body now n good free hc ha enough open' hf hd hr =
      let declared = length (body_of body) in
      let permits = n % 2 ^ 32 in
      let u = new_upload services id vid declared permits in
      let s = reserved_state services state vid permits now in
      let (blob, read) =
        read_succeeds u body hf hd hr (started_reads services id vid declared n ha) refl ha.0 in
      let checked = check_length_allowed services header declared n hc ha in
      let taken = reserve_free services state id vid declared n now good free (omega arith) in
      (
        record s { tx_admission = s.tx_admission ++ ToPipeline.new_blob blob ∷ [] },
        rw (checked, new_blob) (rw (taken, upload) (rw read (settle_ok u s blob open'))),
      )
