-- ===== src/Client/Bridge/Server.antt =====
-- bin/client/src/bridge.rs: the requests of `new_blob` that run at the same time, in steps between which
-- the others go on. A request stands at an `await` or between two accesses of the shared state.
pub mod Turns
pub mod Entries
pub mod Others
pub mod Permits
pub mod Kept
pub mod Blobs
pub mod Wholesome
pub mod Statuses
pub mod Reading
pub mod Alone
use gozara.Base.{
  ℕ, ◌+◌, ◌-◌, ◌%◌, ◌^◌, String, List, [], ◌∷◌, ◌++◌, map, Bool, true, false, Option, none, some,
  Result, ok, err, leb, if◌then◌else◌, get_elem?,
}
use gozara.Base.Positions.{set_at, remove_at}
use gozara.Client.Messages.{ToPipeline, AdmittedBlob}
use gozara.Client.Services.{Services}
use gozara.Client.Bridge.{
  BridgeState, StatusCode, created_201, service_unavailable_503, bridge_new, send_admission,
  admission_new, admission_drop,
}
use gozara.Client.Bridge.Upload.{Frame, Upload, check_length, receive, assemble}

-- Where a request stands: `admitted` with its entry and without its permits; `reading` with both; `leaving`
-- without permits and with an entry to take back, and the code that it answers with unless its client has
-- gone.
pub data Stage (Hash : Type 0) : Type 0 where
  admitted : (id validated_id : String) (declared_blob_len num_chunks : ℕ) → Stage Hash
  reading : Upload Hash → Stage Hash
  leaving : (validated_id : String) (code : Option StatusCode) → Stage Hash

-- What a request does next, its client's disconnection included, which drops the future at an `await`.
pub data Turn : Type 0 where
  acquire : Turn
  frame : Frame → Turn
  end_of_body : Turn
  disconnect : Turn
  clean : Turn

pub data Action : Type 0 where
  post : (id : String) (header : Option (List ℕ)) (now : ℕ) → Action
  go : (request : ℕ) → Turn → Action

pub data Outcome (Hash Tree : Type 0) : Type 0 where
  stays : BridgeState Hash Tree → Stage Hash → Outcome Hash Tree
  answers : BridgeState Hash Tree → Result StatusCode (StatusCode × String) → Outcome Hash Tree
  vanishes : BridgeState Hash Tree → Outcome Hash Tree

-- `requests` in the order in which they began, `replies` in the order in which they ended.
pub record Server (Hash Tree : Type 0) : Type 0 where
  pub bridge : BridgeState Hash Tree
  pub requests : List (Stage Hash)
  pub replies : List (Result StatusCode (StatusCode × String))

module _ {Hash Tree : Type 0} where
  unfoldable pub server_new : Server Hash Tree
  server_new = record { bridge = bridge_new; requests = []; replies = [] }

  -- The drop of `allowance`.
  unfoldable pub give_back : ℕ → BridgeState Hash Tree → BridgeState Hash Tree
  give_back allowance b = record b { admission_budget = b.admission_budget + allowance }

  -- An upload that fails: `allowance` is dropped first, `admission` next.
  unfoldable pub give_up :
      Upload Hash → Option StatusCode → BridgeState Hash Tree → Outcome Hash Tree
  give_up u code b = stays (give_back u.allowance b) (leaving u.validated_id code)

  -- `tx_admission.send(..)` and `admission.commit()`.
  unfoldable pub hand_over :
      Upload Hash
      → Result StatusCode (AdmittedBlob Hash Tree)
      → BridgeState Hash Tree
      → Outcome Hash Tree
  hand_over u (err code) b = give_up u (some code) b
  hand_over u (ok blob) b = elim (send_admission b (ToPipeline.new_blob blob)) [
    | err code ↦ give_up u (some code) b
    | ok b' ↦ answers (admission_drop true u.validated_id b') (ok (created_201, u.id))
  ]

  -- `Drop for Admission`, and the answer.
  unfoldable pub leave : String → Option StatusCode → BridgeState Hash Tree → Outcome Hash Tree
  leave validated_id none b = vanishes (admission_drop false validated_id b)
  leave validated_id (some code) b = answers (admission_drop false validated_id b) (err code)

  unfoldable pub land : ℕ → Server Hash Tree → Outcome Hash Tree → Server Hash Tree
  land i s (stays b stage) = record {
    bridge = b;
    requests = set_at i stage s.requests;
    replies = s.replies;
  }
  land i s (answers b reply) = record {
    bridge = b;
    requests = remove_at i s.requests;
    replies = s.replies ++ reply ∷ [];
  }
  land i s (vanishes b) = record {
    bridge = b;
    requests = remove_at i s.requests;
    replies = s.replies;
  }

module _ {Hash Tree : Type 0} (services : Services Hash Tree) where
  -- `try_acquire_many_owned(num_chunks as u32)`
  unfoldable pub try_acquire : BridgeState Hash Tree → String → String → ℕ → ℕ → Outcome Hash Tree
  try_acquire b id validated_id declared_blob_len num_chunks =
      let permits = num_chunks % 2 ^ 32 in
      if leb permits b.admission_budget
      then stays (record b { admission_budget = b.admission_budget - permits })
          (reading (record {
            id = id;
            validated_id = validated_id;
            declared_blob_len = declared_blob_len;
            allowance = permits;
            received = 0;
            buf = [];
            chunks = [];
          }))
      else stays b (leaving validated_id (some service_unavailable_503))

  unfoldable pub read_frame : BridgeState Hash Tree → Upload Hash → Frame → Outcome Hash Tree
  read_frame b u f = elim (receive services u f) [
    | ok u' ↦ stays b (reading u')
    | err code ↦ give_up u (some code) b
  ]

  unfoldable pub turn : BridgeState Hash Tree → Stage Hash → Turn → Outcome Hash Tree
  turn b (admitted id validated_id declared_blob_len num_chunks) acquire =
      try_acquire b id validated_id declared_blob_len num_chunks
  turn b (reading u) (frame f) = read_frame b u f
  turn b (reading u) end_of_body = hand_over u (assemble services u) b
  turn b (reading u) disconnect = give_up u none b
  turn b (leaving validated_id code) clean = leave validated_id code b
  turn b stage _ = stays b stage

  unfoldable pub post_blob : Server Hash Tree → String → Option (List ℕ) → ℕ → Server Hash Tree
  post_blob s id header now = elim (check_length services header) [
    | err code ↦ record s { replies = s.replies ++ err code ∷ [] }
    | ok (declared_blob_len, num_chunks) ↦ elim (admission_new services s.bridge id now) [
      | err code ↦ record s { replies = s.replies ++ err code ∷ [] }
      | ok (validated_id, b) ↦ record {
        bridge = b;
        requests = s.requests ++ admitted id validated_id declared_blob_len num_chunks ∷ [];
        replies = s.replies;
      }
    ]
  ]

  unfoldable pub serve : Server Hash Tree → Action → Server Hash Tree
  serve s (post id header now) = post_blob s id header now
  serve s (go i t) = elim (get_elem? s.requests i) [
    | none ↦ s
    | some stage ↦ land i s (turn s.bridge stage t)
  ]

  unfoldable pub serve_all : Server Hash Tree → List Action → Server Hash Tree
  serve_all s [] = s
  serve_all s (a ∷ rest) = serve_all (serve s a) rest
