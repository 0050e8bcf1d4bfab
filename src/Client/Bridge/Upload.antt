-- ===== src/Client/Bridge/Upload.antt =====
-- bin/client/src/bridge.rs, `new_blob`: an upload from the request to the admitted blob.
pub mod Chunks
pub mod Body
pub mod Blob
pub mod Reserve
pub mod Rejected
pub mod Admitted
pub mod Succeeds
use gozara.Base.{
  ℕ, ◌+◌, ◌-◌, ◌*◌, ◌^◌, ◌/◌, ◌%◌, zero, suc, min, String, List, [], ◌∷◌, ◌++◌, map, Bool, true,
  false, ◌||◌, ◌&&◌, not, Option, none, some, Result, ok, err, ◌>>=◌, ok_or, ltb, leb, ◌==◌, nat_eq,
  string_eq, if◌then◌else◌, length, take, drop, is_empty,
}
use gozara.Peyk.Blake3.{Blake3}
use gozara.Client.Messages.{AdmittedBlob, ToPipeline}
use gozara.Client.Services.{Services}
use gozara.Client.Bridge.{
  BridgeState, StatusCode, bad_request_400, request_timeout_408, length_required_411,
  payload_too_large_413, internal_server_error_500, service_unavailable_503, created_201,
  max_blob_size, total_chunk_budget, send_admission, admission_new, admission_drop,
}

-- `str::parse::<usize>`: decimal digits behind an optional `+`, within 64 bits.
unfoldable pub parse_digits : ℕ → List ℕ → Option ℕ
parse_digits acc [] = some acc
parse_digits acc (c ∷ cs) =
    let acc' = acc * 10 + (c - b'0') in
    let rest = parse_digits acc' cs in
    if leb b'0' c && leb c b'9' && ltb acc' (2 ^ 64) then rest else none

unfoldable pub parse_usize : List ℕ → Option ℕ
unfolding parse_digits
parse_usize [] = none
parse_usize (c ∷ cs) =
    if c == b'+' then (if is_empty cs then none else parse_digits 0 cs) else parse_digits 0 (c ∷ cs)

-- `usize::div_ceil`
abbrev pub div_ceil : ℕ → ℕ → ℕ
div_ceil a b = if a % b == 0 then a / b else a / b + 1

-- The body stream: a frame of bytes, a frame that fails, or the silence that ends in a timeout.
pub data Frame : Type 0 where
  bytes : List ℕ → Frame
  broken : Frame
  idle : Frame

-- The locals of `new_blob` while it reads the body, the admission and the permits among them.
pub record Upload (Hash : Type 0) : Type 0 where
  pub id : String
  pub validated_id : String
  pub declared_blob_len : ℕ
  pub allowance : ℕ
  pub received : ℕ
  pub buf : List ℕ
  pub chunks : List (Hash × List ℕ)

module _ {Hash Tree : Type 0} (services : Services Hash Tree) where
  open services use {b3, from_leaves, root, to_str, runs, chunk_size}

  unfoldable pub hash_chunk : List ℕ → Result StatusCode (Hash × List ℕ)
  hash_chunk chunk = if runs chunk then ok (b3.hash chunk, chunk) else err internal_server_error_500

  -- `headers.get(CONTENT_LENGTH).and_then(..)`
  unfoldable pub content_length : Option (List ℕ) → Option ℕ
  content_length none = none
  content_length (some value) = elim (to_str value) [ none ↦ none | some text ↦ parse_usize text ]

  -- The declared length and the number of chunks, once they are within the limits.
  unfoldable pub check_length : Option (List ℕ) → Result StatusCode (ℕ × ℕ)
  check_length header = do
    declared_blob_len ← ok_or (content_length header) length_required_411
    let num_chunks = div_ceil declared_blob_len chunk_size
    if declared_blob_len == 0
        then err bad_request_400
        else if ltb max_blob_size declared_blob_len || ltb total_chunk_budget num_chunks
        then err payload_too_large_413
        else ok (declared_blob_len, num_chunks)

  -- `while !data.is_empty()`: each round moves what fits into `buf`, and hashes a full one. `none`
  -- means that the fuel ran out; a round takes a byte at least, so the data's length is enough.
  unfoldable pub fill :
      ℕ
      → List ℕ
      → List (Hash × List ℕ)
      → List ℕ
      → Option (Result StatusCode (List ℕ × List (Hash × List ℕ)))
  fill fuel buf chunks [] = some (ok (buf, chunks))
  fill zero buf chunks (b ∷ bs) = none
  fill (suc fuel) buf chunks (b ∷ bs) =
      let taken = min (chunk_size - length buf) (length (b ∷ bs)) in
      let buf' = buf ++ take taken (b ∷ bs) in
      let data' = drop taken (b ∷ bs) in
      if length buf' == chunk_size
      then (elim (hash_chunk buf') [
        | err code ↦ some (err code)
        | ok chunk ↦ fill fuel [] (chunks ++ chunk ∷ []) data'
      ])
      else (let more = fill fuel buf' chunks data' in more)

  -- One frame of the body.
  unfoldable pub receive : Upload Hash → Frame → Result StatusCode (Upload Hash)
  receive u idle = err request_timeout_408
  receive u broken = err bad_request_400
  receive u (bytes frame) =
      let received = (u.received + length frame) % 2 ^ 64 in
      if ltb u.declared_blob_len received
      then err bad_request_400
      else (elim (fill (length frame) u.buf u.chunks frame) [
        | none ↦ err internal_server_error_500
        | some (err code) ↦ err code
        | some (ok (buf, chunks)) ↦
            ok (record u { received = received; buf = buf; chunks = chunks })
      ])

  unfoldable pub receive_all : Upload Hash → List Frame → Result StatusCode (Upload Hash)
  receive_all u [] = ok u
  receive_all u (f ∷ fs) = do u' ← receive u f; receive_all u' fs

  -- The last chunk, which may be short.
  unfoldable pub flush : Upload Hash → Result StatusCode (List (Hash × List ℕ))
  flush u =
      if is_empty u.buf
      then ok u.chunks
      else (do chunk ← hash_chunk u.buf; ok (u.chunks ++ chunk ∷ []))

  -- The end of the body: the blob that goes to the coordinator.
  unfoldable pub assemble : Upload Hash → Result StatusCode (AdmittedBlob Hash Tree)
  assemble u = if not (u.received == u.declared_blob_len) then err bad_request_400 else (do
    chunks ← flush u
    let merkle_tree = from_leaves (map (λ p. p.0) chunks)
    root_hash ← ok_or (root merkle_tree) internal_server_error_500
    ok (record {
      id = u.id;
      root_hash = root_hash;
      merkle_tree = merkle_tree;
      chunks = chunks;
      allowance = u.allowance;
    }))

  -- The admission and the permits, which are `num_chunks as u32`. Without permits the admission is
  -- dropped.
  unfoldable pub reserve :
      BridgeState Hash Tree
      → String
      → ℕ
      → ℕ
      → ℕ
      → Result StatusCode (Upload Hash) × BridgeState Hash Tree
  reserve state id declared_blob_len num_chunks now = elim (admission_new services state id now) [
    | err code ↦ (err code, state)
    | ok (validated_id, admitted) ↦
        let permits = num_chunks % 2 ^ 32 in
        let u : Upload Hash = record {
          id = id;
          validated_id = validated_id;
          declared_blob_len = declared_blob_len;
          allowance = permits;
          received = 0;
          buf = [];
          chunks = [];
        } in
        if leb permits admitted.admission_budget
        then (ok u, record admitted { admission_budget = admitted.admission_budget - permits })
        else (err service_unavailable_503, admission_drop false validated_id admitted)
  ]

  -- What the drops of an upload that fails undo: the permits go back, and the entry goes.
  unfoldable pub abandon : Upload Hash → BridgeState Hash Tree → BridgeState Hash Tree
  abandon u state =
      admission_drop false u.validated_id
        (record state { admission_budget = state.admission_budget + u.allowance })

  -- The end of an upload, in either way. The permits travel with the blob.
  unfoldable pub settle :
      Upload Hash
      → BridgeState Hash Tree
      → Result StatusCode (AdmittedBlob Hash Tree)
      → Result StatusCode (StatusCode × String) × BridgeState Hash Tree
  settle u state (err code) = (err code, abandon u state)
  settle u state (ok blob) = elim (send_admission state (ToPipeline.new_blob blob)) [
    | err code ↦ (err code, abandon u state)
    | ok state' ↦ (ok (created_201, u.id), admission_drop true u.validated_id state')
  ]

  unfoldable pub upload :
      List Frame
      → Result StatusCode (Upload Hash) × BridgeState Hash Tree
      → Result StatusCode (StatusCode × String) × BridgeState Hash Tree
  upload body (err code, state) = (err code, state)
  upload body (ok u, state) = settle u state (do u' ← receive_all u body; assemble u')

  unfoldable pub new_blob :
      BridgeState Hash Tree
      → String
      → Option (List ℕ)
      → List Frame
      → ℕ
      → Result StatusCode (StatusCode × String) × BridgeState Hash Tree
  new_blob state id header body now = elim (check_length header) [
    | err code ↦ (err code, state)
    | ok (declared_blob_len, num_chunks) ↦
        upload body (reserve state id declared_blob_len num_chunks now)
  ]
