-- ===== src/Examples/Systems.antt =====
-- bin/client: the bridge and the coordinator together, from the start to the first blob.
use gozara.Base.{
  All, arith, ◌++◌, ◌⊎◌, none, refl, get_elem?, string_eq, sym, [], ◌∷◌, ℕ, ◌≡◌, ◌≢◌, String, List,
  some, Result, ok, nat_eq,
}
use gozara.Client.Bridge.{
  BridgeState, StatusCode, created_201, get_status, get_blob, panicked, replied, ok_200,
  not_found_404, bridge_new, admission_new, send_admission, admission_drop,
}
use gozara.Client.System.{System, system_new, Reach, here, Reach-serve_all}
use gozara.Client.System.Blobs.{bodies_in, Reach-IsWholesome}
use gozara.Client.Bridge.Server.Blobs.{ActionFits}
use gozara.Client.Bridge.Server.Wholesome.{IsWholesome}
use gozara.Client.System.Pending.{Reach-stays_pending}
use gozara.Peyk.Swarm.{swarm_new}
use gozara.Client.Messages.{pending}
use gozara.Client.System.Uploads.{Reach-IsExclusive, created-found}
use gozara.Client.Bridge.Upload.{
  bytes, Upload, check_length, content_length, parse_usize, parse_digits, receive, fill, hash_chunk,
  assemble, flush,
}
use gozara.Client.Bridge.Server.{
  Action, post, go, acquire, frame, end_of_body, disconnect, server_new, serve_all, reading, serve,
  post_blob, turn, try_acquire, read_frame, land, hand_over, answers,
}
use gozara.Client.Bridge.Server.Entries.{IsExclusive}
use gozara.Client.System.Budget.{IsBudgeted, Reach-IsBudgeted}
use gozara.Client.System.Statuses.{Reach-answers}
use gozara.Client.Coordinator.{pipeline_new}
use gozara.Peyk.Protocol.{would_store}
use gozara.Client.Messages.{ToPipeline}
use gozara.Client.Coordinator.Events.{Event, handler, admission, internal, run}
use gozara.Client.Coordinator.Starved.{LoopStarves}
use gozara.Client.System.Starvation.{client-LoopStarves}
use gozara.Examples.Pipelines.{small_blob}
use gozara.Examples.Swarms.{first_byte, busy_history, only_the_hint}
use gozara.Examples.Bridges.{six, after_upload}
use gozara.Examples.Instances.{toy_services}

-- The server after some steps of its requests.
abbrev after : List Action → System ℕ (List ℕ)
after actions = record {
  server = serve_all toy_services server_new actions;
  pipeline = pipeline_new;
  swarm = swarm_new;
}

after_reached :
    (actions : List Action)
    → All ActionFits actions
    → Reach toy_services first_byte system_new (after actions)
unfolding system_new
after_reached actions fit = Reach-serve_all toy_services first_byte actions system_new fit here

-- Two clients: the second sends its first frame before the first has its permits, and goes away when
-- the first is about to end.
abbrev two_uploads : List Action
two_uploads =
    post "blob" six 1
    ∷ post "other" six 2
    ∷ go 1 acquire
    ∷ go 1 (frame (bytes (7 ∷ [])))
    ∷ go 0 acquire
    ∷ go 0 (frame (bytes (1 ∷ 2 ∷ 3 ∷ 4 ∷ [])))
    ∷ go 0 (frame (bytes (5 ∷ 6 ∷ [])))
    ∷ go 1 disconnect
    ∷ []

two_reached : Reach toy_services first_byte system_new (after two_uploads)
two_reached =
    after_reached two_uploads
      (tt, (tt, (tt, (omega arith, (tt, (omega arith, (omega arith, (tt, tt))))))))

Reach-IsBudgeted_example : IsBudgeted (after two_uploads)
Reach-IsBudgeted_example = Reach-IsBudgeted toy_services first_byte two_reached

Reach-IsExclusive_example : IsExclusive (after two_uploads).server
Reach-IsExclusive_example = Reach-IsExclusive toy_services first_byte two_reached

Reach-answers_example :
    (get_status (after two_uploads).server.bridge "blob" ≢ panicked)
    × ((r : Result StatusCode (StatusCode × String) × BridgeState ℕ (List ℕ)) × (get_blob
            toy_services
            (after two_uploads).server.bridge
            "blob"
            10
          ≡ some r))
Reach-answers_example =
    Reach-answers toy_services first_byte (after two_uploads) "blob" 10 two_reached

-- An upload of six bytes whose body is read.
abbrev read_body : List Action
read_body =
    post "blob" six 9
    ∷ go 0 acquire
    ∷ go 0 (frame (bytes (1 ∷ 2 ∷ 3 ∷ 4 ∷ 5 ∷ [])))
    ∷ go 0 (frame (bytes (6 ∷ [])))
    ∷ []

read_reached : Reach toy_services first_byte system_new (after read_body)
read_reached = after_reached read_body (tt, (tt, (omega arith, (omega arith, tt))))

abbrev the_upload : Upload ℕ
the_upload = record {
  id = "blob";
  validated_id = "blob";
  declared_blob_len = 6;
  allowance = 2;
  received = 6;
  buf = 5 ∷ 6 ∷ [];
  chunks = (10, 1 ∷ 2 ∷ 3 ∷ 4 ∷ []) ∷ [];
}

read_body_reads : get_elem? (after read_body).server.requests 0 ≡ some (reading the_upload)
unfolding serve_all serve post_blob check_length content_length parse_usize parse_digits
    admission_new turn try_acquire read_frame land receive fill hash_chunk server_new bridge_new
read_body_reads = refl

read_body_ends :
    turn toy_services (after read_body).server.bridge (reading the_upload) end_of_body
    ≡ answers after_upload (ok (created_201, "blob"))
unfolding serve_all serve post_blob check_length content_length parse_usize parse_digits
    admission_new turn try_acquire read_frame land receive fill hash_chunk server_new bridge_new
    hand_over send_admission admission_drop assemble flush
read_body_ends = refl

created-found_example :
    get_status (serve toy_services (after read_body).server (go 0 end_of_body)).bridge "blob"
    ≢ replied not_found_404 none
created-found_example =
    created-found toy_services first_byte (after read_body)
      (record (after read_body) {
        server = serve toy_services (after read_body).server (go 0 end_of_body);
      })
      0 the_upload after_upload (created_201, "blob") read_reached read_body_reads read_body_ends
      here

-- The blob is admitted, and stays pending.
abbrev admitted_blob : List Action
admitted_blob = read_body ++ go 0 end_of_body ∷ []

admitted_reached : Reach toy_services first_byte system_new (after admitted_blob)
admitted_reached = after_reached admitted_blob (tt, (tt, (omega arith, (omega arith, (tt, tt)))))

Reach-IsWholesome_example :
    IsWholesome toy_services
      (after read_body).server
      (bodies_in toy_services first_byte read_reached)
Reach-IsWholesome_example = Reach-IsWholesome toy_services first_byte read_reached

Reach-stays_pending_example :
    (get_status (after admitted_blob).server.bridge "blob" ≡ replied not_found_404 none)
    ⊎ (get_status (after admitted_blob).server.bridge "blob" ≡ replied ok_200 (some pending))
Reach-stays_pending_example =
    Reach-stays_pending toy_services first_byte (after admitted_blob) "blob" admitted_reached

-- The coordinator hears what the swarm task has delivered after `busy_history`.
abbrev real_history : List (ℕ × Event ℕ (List ℕ))
real_history =
    (0, handler (would_store 5))
    ∷ (1, admission (ToPipeline.new_blob small_blob))
    ∷ (2, internal)
    ∷ []

client-LoopStarves_example : LoopStarves (run toy_services pipeline_new real_history)
client-LoopStarves_example =
    client-LoopStarves toy_services first_byte busy_history real_history (sym only_the_hint)
