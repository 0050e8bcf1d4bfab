-- ===== src/Client/Coordinator/Assign/Turns.antt =====
-- bin/client/src/coordinator.rs, `assign_chunks`: the loop against what it is meant to do.
use gozara.Base.{
  ℕ, zero, suc, ◌+◌, ◌-◌, ◌%◌, ◌<◌, ◌≡◌, refl, ap, List, [], ◌∷◌, true, false, filter, length, take,
  get_or, arith, Bool-cases, inl, inr, ◌⊎◌, ◌==◌, nat_eq,
}
use mathlib.Core.List.{Mem, mem-cons_self, mem-cons_of_mem}
use native.Mathlib.Nat.{mod-lt}
use gozara.Client.Coordinator.{Chunk, UploadTask, inflight}
use gozara.Client.Coordinator.Assign.{is_eligible, assign_loop}

suc_beq_zero : (n : ℕ) → (suc n == 0) ≡ false
suc_beq_zero n = ground arith

pub mem-get_or : (l : List ℕ) (i d : ℕ) → i < length l → Mem (get_or l i d) l
mem-get_or [] i d h = absurd (omega arith)
mem-get_or (x ∷ xs) zero d h = mem-cons_self
mem-get_or (x ∷ xs) (suc i) d h = mem-cons_of_mem x (mem-get_or xs i d (omega arith))

module _ {Hash : Type 0} (now : ℕ) where
  -- The chunks that are due, in the map's order.
  abbrev pub due : List (Hash × Chunk) → List (Hash × Chunk)
  due = filter (λ p. is_eligible now p.1)

module _ {Hash : Type 0} (now : ℕ) (peers : List ℕ) where
  -- A task for each chunk, the peers in turn from `peer_index` on.
  unfoldable pub turns : ℕ → List (Hash × Chunk) → List (UploadTask Hash)
  turns peer_index [] = []
  turns peer_index ((hash, chunk) ∷ rest) =
      record {
        hash = hash;
        peer = get_or peers peer_index 0;
        payload = chunk.payload;
        started = now;
      }
      ∷ turns ((peer_index + 1) % length peers) rest

  length-turns : (i : ℕ) (chunks : List (Hash × Chunk)) → length (turns i chunks) ≡ length chunks
  unfolding turns
  length-turns i [] = refl
  length-turns i ((hash, chunk) ∷ rest) = ap suc (length-turns ((i + 1) % length peers) rest)

  -- With a permit for each chunk that `take` lets through, the loop spawns those tasks and no other.
  pub assign_loop-uploads :
      (permits peer_index : ℕ) (chunks : List (Hash × Chunk))
      → (assign_loop now peers permits permits peer_index chunks).uploads
        ≡ turns peer_index (take permits (due now chunks))
  unfolding assign_loop turns
  assign_loop-uploads zero i [] = refl
  assign_loop-uploads (suc n) i [] = refl
  assign_loop-uploads zero i ((hash, chunk) ∷ rest) = elim (Bool-cases (is_eligible now chunk)) [
    | inl ready ↦ rw ready refl
    | inr waiting ↦ rw waiting (assign_loop-uploads zero i rest)
  ]
  assign_loop-uploads (suc n) i ((hash, chunk) ∷ rest) =
      let less : suc n - 1 ≡ n = omega arith in
      let positive : (suc n == 0) ≡ false = suc_beq_zero n in
      elim (Bool-cases (is_eligible now chunk)) [
        | inl ready ↦
            rw (ready, less, positive)
              (ap
                (λ l.
                  record {
                    hash = hash;
                    peer = get_or peers i 0;
                    payload = chunk.payload;
                    started = now;
                  }
                  ∷ l)
                (assign_loop-uploads n ((i + 1) % length peers) rest))
        | inr waiting ↦ rw waiting (assign_loop-uploads (suc n) i rest)
      ]

  -- Each task that is spawned holds a permit of its own.
  pub assign_loop-permits :
      (permits peer_index : ℕ) (chunks : List (Hash × Chunk))
      → let done = assign_loop now peers permits permits peer_index chunks in
        done.permits + length done.uploads ≡ permits
  unfolding assign_loop
  assign_loop-permits permits i [] = omega arith
  assign_loop-permits zero i ((hash, chunk) ∷ rest) = elim (Bool-cases (is_eligible now chunk)) [
    | inl ready ↦ rw ready (omega arith)
    | inr waiting ↦ rw waiting (assign_loop-permits zero i rest)
  ]
  assign_loop-permits (suc n) i ((hash, chunk) ∷ rest) =
      let less : suc n - 1 ≡ n = omega arith in
      let positive : (suc n == 0) ≡ false = suc_beq_zero n in
      elim (Bool-cases (is_eligible now chunk)) [
        | inl ready ↦
            rw (ready, less, positive)
              (omega (arith, assign_loop-permits n ((i + 1) % length peers) rest))
        | inr waiting ↦ rw waiting (assign_loop-permits (suc n) i rest)
      ]

  -- A chunk before and after: it keeps its hash and its bytes, and its status too unless it was due
  -- and has gone to one of the peers.
  abbrev pub Marked : Hash × Chunk → Hash × Chunk → Type 0
  Marked (h, c) (h', c') =
      (h' ≡ h)
      × (c'.payload ≡ c.payload)
      × ((c'.status ≡ c.status)
          ⊎ ((is_eligible now c ≡ true)
              × ((peer : ℕ) × Mem peer peers
                  × (c'.status ≡ record { at = now; status = inflight peer }))))

  abbrev pub AllMarked : List (Hash × Chunk) → List (Hash × Chunk) → Type 0
  AllMarked [] [] = Unit {0}
  AllMarked [] (d ∷ ds) = ⊥
  AllMarked (c ∷ cs) [] = ⊥
  AllMarked (c ∷ cs) (d ∷ ds) = Marked c d × AllMarked cs ds

  pub AllMarked-refl : (chunks : List (Hash × Chunk)) → AllMarked chunks chunks
  AllMarked-refl [] = tt
  AllMarked-refl ((h, c) ∷ rest) = ((refl, refl, inl refl), AllMarked-refl rest)

  pub assign_loop-AllMarked :
      (permits i : ℕ) (chunks : List (Hash × Chunk))
      → i < length peers
      → AllMarked chunks (assign_loop now peers permits permits i chunks).chunks
  unfolding assign_loop
  assign_loop-AllMarked permits i [] hi = tt
  assign_loop-AllMarked zero i ((hash, chunk) ∷ rest) hi =
      elim (Bool-cases (is_eligible now chunk)) [
        | inl ready ↦ rw ready (AllMarked-refl ((hash, chunk) ∷ rest))
        | inr waiting ↦ rw waiting ((refl, refl, inl refl), assign_loop-AllMarked zero i rest hi)
      ]
  assign_loop-AllMarked (suc n) i ((hash, chunk) ∷ rest) hi =
      let less : suc n - 1 ≡ n = omega arith in
      let positive : (suc n == 0) ≡ false = suc_beq_zero n in
      elim (Bool-cases (is_eligible now chunk)) [
        | inl ready ↦
            rw (ready, less, positive)
              (
                (refl, refl, inr (ready, (get_or peers i 0, mem-get_or peers i 0 hi, refl))),
                assign_loop-AllMarked n ((i + 1) % length peers) rest (mod-lt _ (omega arith)),
              )
        | inr waiting ↦ rw waiting ((refl, refl, inl refl), assign_loop-AllMarked (suc n) i rest hi)
      ]
