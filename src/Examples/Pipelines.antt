-- ===== src/Examples/Pipelines.antt =====
-- bin/client/src/coordinator.rs on concrete histories.
use gozara.Base.{ℕ, inl, inr, ◌*◌, ◌≡◌, refl, List, [], ◌∷◌, true, some, arith, nat_eq}
use gozara.Base.Time.{nanos}
use gozara.Peyk.Protocol.{would_store, response, issued_storage_permit}
use gozara.Client.Messages.{AdmittedBlob, ToPipeline, ToBridge, Status, update_status}
use gozara.Client.Coordinator.{
  pending, inflight, LocalBlob, Pipeline, pipeline_new, begin_next_blob, add_local_blob, pop_blob,
  request_storage_permits, collect_chunks, archive_cur_blob,
}
use gozara.Client.Coordinator.Assign.{assign_blob, assign_loop, is_eligible, is_due, assign_chunks}
use gozara.Client.Coordinator.Assign.Peers.{Assigns, assign_chunks-Assigns}
use gozara.Client.Coordinator.Events.{
  Event, Loop, running, stopped, panicked, pushed, handler, admission, internal, ended,
  handle_internal, end_upload, handle_swarm, handle_response, handle_admission, after_update,
  finish_blob, report_upload, stale, update_status_of, step, run,
}
use gozara.Client.Coordinator.Order.Loops.{Comes, step-Goes}
use gozara.Client.Coordinator.Order.History.{Stands, run-new-Stands}
use gozara.Client.Coordinator.{Chunk, finalized, update_chunk_status}
use gozara.Client.Coordinator.Order.Drains.{News, messages_of, Drains, run-Drains}
use gozara.Client.Coordinator.Order.Told.{LoopTells, step-LoopTells}
use gozara.Client.Coordinator.Permits.Rounds.{LoopHolds, run-new-permits}
use gozara.Examples.Instances.{toy_services}

abbrev pub small_blob : AdmittedBlob ℕ (List ℕ)
small_blob = record {
  id = "blob";
  root_hash = 21;
  merkle_tree = 10 ∷ 11 ∷ [];
  chunks = (10, 1 ∷ 2 ∷ 3 ∷ 4 ∷ []) ∷ (11, 5 ∷ 6 ∷ []) ∷ [];
  allowance = 2;
}

-- A provider shows up, a blob of two chunks is admitted, the provider grants a permit, both uploads
-- succeed, and the blob is finalized.
abbrev whole_history : List (ℕ × Event ℕ (List ℕ))
whole_history =
    (0, handler (would_store 5))
    ∷ (1, admission (ToPipeline.new_blob small_blob))
    ∷ (2, handler (response 5 0 (issued_storage_permit 60)))
    ∷ (3, ended 0 pushed)
    ∷ (4, ended 0 pushed)
    ∷ (5, internal)
    ∷ (6, internal)
    ∷ []

abbrev after : Loop ℕ (List ℕ) → List ToBridge
after (running p) = p.tx_bridge
after (stopped p) = p.tx_bridge
after panicked = []

finalized_at_the_end :
    after (run toy_services pipeline_new whole_history) ≡ update_status "blob" Status.finalized ∷ []
unfolding run step handle_internal end_upload handle_swarm handle_response assign_chunks
    handle_admission begin_next_blob add_local_blob pipeline_new pop_blob request_storage_permits
    assign_blob assign_loop collect_chunks is_eligible is_due after_update finish_blob report_upload
    stale update_status_of archive_cur_blob
finalized_at_the_end = refl

-- A blob of two chunks in work, one of them in flight for an hour, with one permit left and a provider
-- that has granted a permit until the thousandth second.
abbrev late_blob : LocalBlob ℕ (List ℕ)
late_blob = record {
  id = "blob";
  root_hash = 21;
  merkle_tree = 10 ∷ 11 ∷ [];
  chunks =
      (10, record { payload = 1 ∷ []; status = record { at = 0; status = inflight 4 } })
      ∷ (11, record { payload = 2 ∷ []; status = record { at = 0; status = pending } })
      ∷ [];
  allowance = 2;
  created_at = 0;
}

abbrev late_pipeline : Pipeline ℕ (List ℕ)
late_pipeline = record {
  remote_blobs = [];
  pending_local_blobs = [];
  current_blob = some late_blob;
  storage_provider_hints = (5, 0) ∷ [];
  storage_permits = (5, 1000 * nanos) ∷ [];
  rx_internal = [];
  tx_swarm = [];
  tx_bridge = [];
  bridge_open = true;
  uploads = [];
  returned = 0;
  download_allowance = 32;
  upload_allowance = 1;
}

assign_chunks-Assigns_example :
    Assigns (60 * nanos) late_blob late_pipeline (assign_chunks (60 * nanos) late_pipeline)
assign_chunks-Assigns_example =
    assign_chunks-Assigns (60 * nanos) late_blob late_pipeline refl (omega arith)

step-Goes_example :
    Comes
      (admission (ToPipeline.new_blob small_blob))
      late_pipeline
      (step toy_services late_pipeline 7 (admission (ToPipeline.new_blob small_blob)))
step-Goes_example =
    step-Goes toy_services late_pipeline 7 (admission (ToPipeline.new_blob small_blob)) (inl refl)

run-new-Stands_example : Stands (("blob", 2) ∷ []) (run toy_services pipeline_new whole_history)
run-new-Stands_example = run-new-Stands toy_services whole_history

run-new-permits_example : LoopHolds 20 (run toy_services pipeline_new whole_history)
run-new-permits_example = run-new-permits toy_services whole_history

-- A blob with one chunk to go, and the message that it is stored.
abbrev last_chunk : Chunk
last_chunk = record { payload = 2 ∷ []; status = record { at = 0; status = inflight 5 } }

abbrev nearly_done : LocalBlob ℕ (List ℕ)
nearly_done = record late_blob {
  chunks =
      (10, record { payload = 1 ∷ []; status = record { at = 0; status = finalized 4 } })
      ∷ (11, last_chunk)
      ∷ [];
}

abbrev last_message : Pipeline ℕ (List ℕ)
last_message = record late_pipeline {
  current_blob = some nearly_done;
  rx_internal = update_chunk_status 11 (finalized 5) 6 ∷ [];
}

-- The bridge is told as the last chunk is stored.
step-LoopTells_example :
    LoopTells 7 internal last_message (step toy_services last_message 7 internal)
step-LoopTells_example = step-LoopTells toy_services last_message 7 internal

-- Both chunks of the blob are stored, and so is one of an older blob; the messages were sent and are taken at
-- different times.
abbrev three_news : List (News ℕ)
three_news =
    record { hash = 11; owner = 5; sent_at = 3; taken_at = 7 }
    ∷ record { hash = 99; owner = 5; sent_at = 4; taken_at = 8 }
    ∷ record { hash = 10; owner = 4; sent_at = 6; taken_at = 9 }
    ∷ []

abbrev all_stored : Pipeline ℕ (List ℕ)
all_stored = record late_pipeline { rx_internal = messages_of three_news }

run-Drains_example : Drains toy_services three_news all_stored
run-Drains_example =
    run-Drains toy_services three_news [] late_blob all_stored refl refl
      (
        (((λ e. omega (arith, e)), tt), (tt, tt)),
        (inr (inr (inr (inl refl))), (inr (inl refl), tt)),
        refl,
      )
      refl
