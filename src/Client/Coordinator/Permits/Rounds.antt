-- ===== src/Client/Coordinator/Permits/Rounds.antt =====
-- bin/client/src/coordinator.rs, `run`: the upload permits over a whole history.
use gozara.Base.{ℕ, ◌≡◌, refl, subst, List, [], ◌∷◌, Option, none, some, Eq}
use gozara.Client.Messages.{ToPipeline}
use gozara.Client.Services.{Services}
use gozara.Client.Coordinator.{Pipeline, pipeline_new, add_local_blob}
use gozara.Client.Coordinator.Events.{
  Event, Loop, running, stopped, panicked, shutdown_requested, stale_tick, assign_tick, handler,
  admission, internal, incoming_push, incoming_pull, transfer, closed, ended, handle_internal,
  handle_admission, step, run,
}
use gozara.Client.Coordinator.Permits.{
  upload_permits, stale-permits, begin_next_blob-permits, assign_chunks-permits,
  handle_swarm-permits, end_upload-permits, Holds, handle_internal-Holds,
}

module _ {Hash Tree : Type 0} where
  -- A loop that has not panicked has `n` permits.
  abbrev pub LoopHolds : ℕ → Loop Hash Tree → Type 0
  LoopHolds n (running p) = upload_permits p ≡ n
  LoopHolds n (stopped p) = upload_permits p ≡ n
  LoopHolds n panicked = Unit {0}

  running_or_panicked :
      (n : ℕ) (o : Option (Pipeline Hash Tree))
      → Holds n o
      → LoopHolds n (elim o [ none ↦ panicked | some p ↦ running p ])
  running_or_panicked n none h = tt
  running_or_panicked n (some p) h = h

module _ {Hash Tree : Type 0} ⦃hash_eq : Eq Hash⦄ (services : Services Hash Tree) where
  step-LoopHolds :
      (p : Pipeline Hash Tree) (now : ℕ) (e : Event Hash Tree)
      → LoopHolds (upload_permits p) (step services p now e)
  unfolding step handle_admission add_local_blob
  step-LoopHolds p now shutdown_requested = refl
  step-LoopHolds p now closed = refl
  step-LoopHolds p now stale_tick = stale-permits now p
  step-LoopHolds p now assign_tick = assign_chunks-permits now p
  step-LoopHolds p now (handler m) = handle_swarm-permits now m p
  step-LoopHolds p now (admission (ToPipeline.get_blob id)) = refl
  step-LoopHolds p now (admission (ToPipeline.new_blob blob)) = begin_next_blob-permits now _
  step-LoopHolds p now internal =
      running_or_panicked (upload_permits p) (handle_internal now p.rx_internal p)
        (handle_internal-Holds now p.rx_internal p)
  step-LoopHolds p now (incoming_push push) = refl
  step-LoopHolds p now (incoming_pull pull) = refl
  step-LoopHolds p now (transfer e) = refl
  step-LoopHolds p now (ended i r) = end_upload-permits now i r p

  run-LoopHolds :
      (history : List (ℕ × Event Hash Tree)) (p : Pipeline Hash Tree)
      → LoopHolds (upload_permits p) (run services p history)
  unfolding run
  run-LoopHolds [] p = refl
  run-LoopHolds ((now, e) ∷ rest) p =
      continue (step services p now e) (step-LoopHolds p now e) (λ p'. run-LoopHolds rest p')
    where
      continue :
          (s : Loop Hash Tree)
          → LoopHolds (upload_permits p) s
          → ((p' : Pipeline Hash Tree) → LoopHolds (upload_permits p') (run services p' rest))
          → LoopHolds (upload_permits p) (elim s [
            | running p' ↦ run services p' rest
            | stopped p' ↦ stopped p'
            | panicked ↦ panicked
          ])
      continue (running p') h later = subst (λ n. LoopHolds n (run services p' rest)) h (later p')
      continue (stopped p') h later = h
      continue panicked h later = tt

  -- After any history from the new pipeline on, a loop that has not panicked has 20 upload
  -- permits, the free ones and those that its upload tasks hold taken together.
  pub run-new-permits :
      (history : List (ℕ × Event Hash Tree)) → LoopHolds 20 (run services pipeline_new history)
  unfolding pipeline_new
  run-new-permits history = run-LoopHolds history pipeline_new
