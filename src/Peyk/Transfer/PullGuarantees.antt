-- ===== src/Peyk/Transfer/PullGuarantees.antt =====
-- crates/peyk/src/blob_transfer.rs, `pull`: what the requester may rely on, whatever it is sent.
use gozara.Base.{
  ℕ, ◌≤◌, ◌≡◌, ◌⊎◌, inl, inr, ap, List, [], ◌∷◌, ◌++◌, true, false, Option, none, some, length, Eq,
  ◌==◌, ok, err, Bool-cases, Result, nat_eq,
}
use gozara.Peyk.Link.{
  Link, Outcome, done, fail, Error, read_exact, close, send, attempt, open_io, from_result,
}
use gozara.Peyk.Link.Triple.{
  Ends, Triple, Triple-bind, attempt-close-Triple, Triple-weaken, read_exact-Triple, open_io-Triple,
}
use gozara.Peyk.Frame.Triples.{read_frame-Triple, write_frame-Triple}
use gozara.Peyk.Blake3.{Blake3}
use gozara.Peyk.Events.{TransferEvent}
use gozara.Peyk.Frame.{read_frame, write_frame}
use gozara.Peyk.Transfer.Steps.{pull_event}
use gozara.Peyk.Transfer.{pull, pull_result, await_blob, tag_of, pulled_len, is_pulled}

module _ {Hash : Type 0} ⦃hash_eq : Eq Hash⦄ (b3 : Blake3 Hash) where
  open b3 use {hash as digest, as_slice}

  abbrev Quiet : List (TransferEvent Hash) → Type 0
  Quiet l = l ≡ []

  -- A result of `pull` as a value, before it is reported: data is the data asked for.
  abbrev Fits : Hash → ℕ → Result Error (Option (List ℕ)) → Type 0
  Fits h max_len (ok (some payload)) = (digest payload ≡ h) × (length payload ≤ max_len)
  Fits h max_len (ok none) = Unit {0}
  Fits h max_len (err e) = Unit {0}

  -- One event stands for one answer: data that hashes to `h`, or none.
  abbrev pub Reports : ℕ → Hash → ℕ → Option (List ℕ) → List (TransferEvent Hash) → Type 0
  Reports peer h max_len (some payload) l =
      (digest payload ≡ h)
      × (length payload ≤ max_len)
      × (l ≡ pull_event peer h (length payload) true ∷ [])
  Reports peer h max_len none l = l ≡ pull_event peer h 0 false ∷ []

  -- An error is reported as a failed transfer, or not at all where the stream broke off.
  abbrev pub ReportsNone : ℕ → Hash → List (TransferEvent Hash) → Type 0
  ReportsNone peer h l = (l ≡ []) ⊎ (l ≡ pull_event peer h 0 false ∷ [])

  pull_result-Triple :
      (h : Hash) (max_len : ℕ) (tag : List ℕ)
      → Triple Quiet (pull_result b3 h max_len tag) (λ r l. Fits h max_len r × Quiet l) Quiet
  unfolding pull_result
  pull_result-Triple h max_len tag s q = elim (Bool-cases (tag_of tag == 0)) [
    | inl absent ↦ rw absent (tt, q)
    | inr present ↦ rw present (
        Triple-bind Quiet _ (λ r l. Fits h max_len r × Quiet l) Quiet (read_frame max_len) _
          (read_frame-Triple Quiet max_len)
          (λ payload t k. elim (Bool-cases (digest payload == h)) [
            | inl same ↦ rw same (((hash_eq.beq_iff (digest payload) h).0 same, k.0), k.1)
            | inr other ↦ rw other (tt, k.1)
          ])
          s q)
  ]

  report :
      (peer : ℕ) (h : Hash) (max_len : ℕ) (r : Result Error (Option (List ℕ)))
      (s : Link (TransferEvent Hash))
      → Fits h max_len r
      → s.sent ≡ pull_event peer h (pulled_len r) (is_pulled r) ∷ []
      → Ends (Reports peer h max_len) (ReportsNone peer h) (from_result r s)
  report peer h max_len (ok (some payload)) s f e = (f.0, f.1, e)
  report peer h max_len (ok none) s f e = e
  report peer h max_len (err x) s f e = inr e

  await_blob-Triple :
      (peer : ℕ) (h : Hash) (max_len : ℕ)
      → Triple Quiet (await_blob b3 peer h max_len) (Reports peer h max_len) (ReportsNone peer h)
  unfolding await_blob send
  await_blob-Triple peer h max_len =
      let last = Reports peer h max_len in
      let broken = ReportsNone peer h in
      let weaken = λ (l : List (TransferEvent Hash)) (q : Quiet l). inl q in
      Triple-bind Quiet _ last broken (read_exact 1) _
        (Triple-weaken Quiet _ Quiet broken (read_exact 1) weaken (read_exact-Triple Quiet 1))
        λ tag s k.
          Triple-bind Quiet _ last broken (pull_result b3 h max_len tag) _
            (Triple-weaken Quiet _ Quiet broken (pull_result b3 h max_len tag) weaken
              (pull_result-Triple h max_len tag))
            (λ r t f.
              Triple-bind Quiet (λ _. Quiet) last broken (attempt close) _
                (attempt-close-Triple Quiet broken)
                (λ _ u q.
                  report peer h max_len r _ f.0
                    (ap (λ l. l ++ pull_event peer h (pulled_len r) (is_pulled r) ∷ []) q))
                t f.1)
            s k.1

  pull-Triple :
      (peer : ℕ) (h : Hash) (max_len : ℕ)
      → Triple Quiet (pull b3 peer h max_len) (Reports peer h max_len) (ReportsNone peer h)
  unfolding pull
  pull-Triple peer h max_len =
      let last = Reports peer h max_len in
      let broken = ReportsNone peer h in
      let weaken = λ (l : List (TransferEvent Hash)) (q : Quiet l). inl q in
      Triple-bind Quiet (λ _. Quiet) last broken open_io _
        (Triple-weaken Quiet _ Quiet broken open_io weaken (open_io-Triple Quiet))
        λ _.
          Triple-bind Quiet (λ _. Quiet) last broken (write_frame (as_slice h)) _
            (Triple-weaken Quiet _ Quiet broken (write_frame (as_slice h)) weaken
              (write_frame-Triple Quiet (as_slice h)))
            λ _. await_blob-Triple peer h max_len

  -- An outcome of `pull`, with what it has reported.
  abbrev pub Answered : ℕ → Hash → ℕ → Outcome (TransferEvent Hash) (Option (List ℕ)) → Type 0
  Answered peer h max_len (done r t) = Reports peer h max_len r t.sent
  Answered peer h max_len (fail e t) = ReportsNone peer h t.sent

  -- Whatever bytes come in, `pull` on a quiet channel that returns data returns data within
  -- the limit and with the hash asked for, and reports it as one successful event; if it
  -- returns no data it reports one failed event; if it fails it reports one failed event or
  -- none.
  pub pull-Answered :
      (peer : ℕ) (h : Hash) (max_len : ℕ) (s : Link (TransferEvent Hash))
      → s.sent ≡ []
      → Answered peer h max_len (pull b3 peer h max_len s)
  pull-Answered peer h max_len s q = go (pull b3 peer h max_len s) (pull-Triple peer h max_len s q)
    where
      go :
          (o : Outcome (TransferEvent Hash) (Option (List ℕ)))
          → Ends (Reports peer h max_len) (ReportsNone peer h) o
          → Answered peer h max_len o
      go (done r t) k = k
      go (fail e t) k = k
