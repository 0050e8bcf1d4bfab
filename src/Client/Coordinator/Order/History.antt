-- ===== src/Client/Coordinator/Order/History.antt =====
-- bin/client/src/coordinator.rs, `run`: what a whole history of the loop does with the blobs.
use gozara.Base.{
  ℕ, ◌+◌, ◌≡◌, refl, sym, ap, ◌∙◌, String, List, [], ◌∷◌, ◌++◌, map, true, Eq, if◌then◌else◌, arith,
  sum, sum-append, inl, All, All-append, append_assoc, append-nil, subst,
}
use mathlib.Core.List.{map-append}
use gozara.Client.Messages.{ToBridge, Status, update_status}
use gozara.Client.Services.{Services}
use gozara.Client.Coordinator.{Pipeline, pipeline_new}
use gozara.Client.Coordinator.Events.{Event, Loop, running, stopped, panicked, step, run}
use gozara.Client.Coordinator.Order.{Queue, Moves, stay, admit, finish, view, IsBusy}
use gozara.Client.Coordinator.Order.Loops.{Comes, admitted_by, ends_loop, step-Goes}

abbrev pub told_id : ToBridge → String
told_id (update_status id status) = id

-- A message that the blob is finalized.
abbrev pub SaysFinalized : ToBridge → Type 0
SaysFinalized (update_status id status) = status ≡ Status.finalized

-- The ids in the order of admission: those that the bridge was told of, then those that wait.
abbrev pub ids : Queue → List String
ids q = map told_id q.told ++ map (λ b. b.0) q.waiting

-- The permits that have come back, and those that the waiting blobs hold.
abbrev pub permits : Queue → ℕ
permits q = q.returned + sum (map (λ b. b.1) q.waiting)

-- The queue accounts for the blobs that were admitted, in their order, with their permits.
abbrev pub Accounts : List (String × ℕ) → Queue → Type 0
Accounts admitted q =
    (q.bridge_open ≡ true)
    × All SaysFinalized q.told
    × (ids q ≡ map (λ b. b.0) admitted)
    × (permits q ≡ sum (map (λ b. b.1) admitted))

-- The permits of the blobs.
abbrev pub permits_of : List (String × ℕ) → ℕ
permits_of blobs = sum (map (λ b. b.1) blobs)

permits_of-append :
    (xs ys : List (String × ℕ)) → permits_of (xs ++ ys) ≡ permits_of xs + permits_of ys
permits_of-append xs ys =
    ap sum (map-append (λ (b : String × ℕ). b.1) xs ys)
    ∙ sum-append (map (λ (b : String × ℕ). b.1) xs) (map (λ (b : String × ℕ). b.1) ys)

pub Moves-permits :
    {l : List (String × ℕ)} {q q' : Queue} → Moves l q q' → permits q' ≡ permits q + permits_of l
Moves-permits (stay q) = omega arith
Moves-permits (admit q id allowance) =
    omega (arith, permits_of-append q.waiting ((id, allowance) ∷ []))
Moves-permits (finish q id allowance rest e) = omega (arith, ap permits_of e)

Moves-ids :
    {l : List (String × ℕ)} {q q' : Queue}
    → Moves l q q'
    → q.bridge_open ≡ true
    → (q'.bridge_open ≡ true) × (ids q' ≡ ids q ++ map (λ b. b.0) l)
Moves-ids (stay q) open' = (open', sym (append-nil (ids q)))
Moves-ids (admit q id allowance) open' = (
  open',
  ap (λ l. map told_id q.told ++ l)
        (map-append (λ (b : String × ℕ). b.0) q.waiting ((id, allowance) ∷ []))
      ∙ sym (append_assoc (map told_id q.told) (map (λ (b : String × ℕ). b.0) q.waiting) (id ∷ [])),
)
Moves-ids (finish q id allowance rest e) open' = (
  open',
  rw (open', map-append told_id q.told (update_status id Status.finalized ∷ []))
      (append_assoc (map told_id q.told) (id ∷ []) (map (λ (b : String × ℕ). b.0) rest)
        ∙ ap (λ (w : List (String × ℕ)). map told_id q.told ++ map (λ b. b.0) w) (sym e)
        ∙ sym (append-nil (ids q))),
)

Moves-SaysFinalized :
    {l : List (String × ℕ)} {q q' : Queue}
    → Moves l q q'
    → q.bridge_open ≡ true
    → All SaysFinalized q.told
    → All SaysFinalized q'.told
Moves-SaysFinalized (stay q) open' h = h
Moves-SaysFinalized (admit q id allowance) open' h = h
Moves-SaysFinalized (finish q id allowance rest e) open' h =
    rw open' (All-append SaysFinalized q.told (update_status id Status.finalized ∷ []) h (refl, tt))

Moves-Accounts :
    {l : List (String × ℕ)} {q q' : Queue}
    → Moves l q q'
    → (before : List (String × ℕ)) → Accounts before q
    → Accounts (before ++ l) q'
Moves-Accounts {l} m before (open', told, order, held') =
    let (still_open, next) = Moves-ids m open' in
    (
      still_open,
      Moves-SaysFinalized m open' told,
      next
          ∙ ap (λ i. i ++ map (λ b. b.0) l) order
          ∙ sym (map-append (λ (b : String × ℕ). b.0) before l),
      Moves-permits m ∙ ap (λ n. n + permits_of l) held' ∙ sym (permits_of-append before l),
    )

module _ {Hash Tree : Type 0} where
  -- The blobs that a history admits, up to the event that ends the loop.
  abbrev pub admitted_in : List (ℕ × Event Hash Tree) → List (String × ℕ)
  admitted_in [] = []
  admitted_in ((now, e) ∷ rest) =
      let later = admitted_in rest in if ends_loop e then [] else admitted_by e ++ later

  -- How the loop stands after a history: it has not panicked, it accounts for the blobs, and none waits
  -- while none is in work.
  abbrev pub Stands : List (String × ℕ) → Loop Hash Tree → Type 0
  Stands admitted (running p) = Accounts admitted (view p) × IsBusy p
  Stands admitted (stopped p) = Accounts admitted (view p) × IsBusy p
  Stands admitted panicked = ⊥

module _ {Hash Tree : Type 0} ⦃hash_eq : Eq Hash⦄ (services : Services Hash Tree) where
  run-Stands :
      (history : List (ℕ × Event Hash Tree)) (p : Pipeline Hash Tree) (before : List (String × ℕ))
      → Accounts before (view p)
      → IsBusy p
      → Stands (before ++ admitted_in history) (run services p history)
  unfolding run
  run-Stands [] p before accounts ready = rw (append-nil before) (accounts, ready)
  run-Stands ((now, e) ∷ rest) p before accounts ready =
      go (λ p' before' a r. run-Stands rest p' before' a r) (step services p now e) refl
        (step-Goes services p now e ready)
    where
      go :
          (later : (p' : Pipeline Hash Tree) (before' : List (String × ℕ))
            → Accounts before' (view p')
            → IsBusy p'
            → Stands (before' ++ admitted_in rest) (run services p' rest))
          → (s : Loop Hash Tree) → step services p now e ≡ s
          → Comes e p s
          → Stands (before ++ admitted_in ((now, e) ∷ rest)) (run services p ((now, e) ∷ rest))
      go later (running p') h (goes_on, goes) =
          rw (goes_on, run, h)
            (subst (λ l. Stands l (run services p' rest))
              (append_assoc before (admitted_by e) (admitted_in rest))
              (later p' (before ++ admitted_by e) (Moves-Accounts goes.0 before accounts) goes.1))
      go later (stopped p') h (ends, same) =
          rw (ends, run, h, append-nil before, same) (accounts, ready)
      go later panicked h c = absurd c

  -- After any history from the new pipeline on, the loop has not panicked. Each message that
  -- the bridge was told says that a blob is finalized, and the ids of these messages, followed
  -- by those of the blobs that wait, are the admitted ids in their order; the permits that
  -- have come back and those that the waiting blobs hold are together those admitted; and no
  -- blob waits while none is in work.
  pub run-new-Stands :
      (history : List (ℕ × Event Hash Tree))
      → Stands (admitted_in history) (run services pipeline_new history)
  unfolding pipeline_new
  run-new-Stands history = run-Stands history pipeline_new [] (refl, tt, refl, refl) (inl refl)
