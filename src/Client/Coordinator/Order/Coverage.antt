-- ===== src/Client/Coordinator/Order/Coverage.antt =====
-- bin/client/src/coordinator.rs: the chunks of a blob that wait for the news of their upload.
use gozara.Base.{
  ℕ, ◌≡◌, ◌≢◌, refl, sym, ap, ◌∙◌, subst, List, [], ◌∷◌, Bool, true, false, none, Eq, ◌==◌, All,
  ◌⊎◌, inl, inr, arith, Bool-cases,
}
use gozara.Base.Maps.{lookup, modify}
use gozara.Client.Coordinator.{ChunkUploadStatus, pending, inflight, finalized, Chunk}
use gozara.Client.Coordinator.Assign.{is_due, is_eligible}
use gozara.Client.Coordinator.Assign.Turns.{Marked, AllMarked}
use gozara.Client.Coordinator.Events.{is_finalized, all_finalized}

abbrev is_stored : ChunkUploadStatus → Bool
is_stored s = elim s [ finalized owner ↦ true | _ ↦ false ]

due_not_stored : (now at : ℕ) (s : ChunkUploadStatus) → is_due now at s ≡ true → is_stored s ≡ false
unfolding is_due
due_not_stored now at pending h = refl
due_not_stored now at (inflight to) h = refl
due_not_stored now at (finalized owner) h = absurd (ground arith)

module _ {Hash : Type 0} where
  abbrev pub Among : Hash → List (Hash × ℕ) → Type 0
  Among k [] = ⊥
  Among k ((h, owner) ∷ rest) = (k ≡ h) ⊎ Among k rest

  -- The keys of a map differ.
  abbrev pub AreDistinct : List (Hash × Chunk) → Type 0
  AreDistinct [] = Unit {0}
  AreDistinct ((k, c) ∷ rest) = All (λ q. q.0 ≢ k) rest × AreDistinct rest

  -- Each chunk is finalized or among the news.
  abbrev pub AreCovered : List (Hash × ℕ) → List (Hash × Chunk) → Type 0
  AreCovered news chunks = All (λ q. (is_finalized q.1 ≡ true) ⊎ Among q.0 news) chunks

  abbrev pub IsGood : List (Hash × ℕ) → List (Hash × Chunk) → Type 0
  IsGood news chunks = AreDistinct chunks × AreCovered news chunks × (all_finalized chunks ≡ false)

  covered_by_none :
      (chunks : List (Hash × Chunk)) → AreCovered [] chunks → all_finalized chunks ≡ true
  covered_by_none [] h = refl
  covered_by_none ((k, c) ∷ rest) (inl done, hs) = rw done (covered_by_none rest hs)
  covered_by_none ((k, c) ∷ rest) (inr m, hs) = absurd m

  pub not-IsGood : (chunks : List (Hash × Chunk)) → ¬ IsGood [] chunks
  not-IsGood chunks (distinct, covered, open') = ground (arith, covered_by_none chunks covered)

  -- A mark of the assignment leaves a finalized chunk, and finalizes none.
  Marked-is_finalized :
      (now : ℕ) (peers : List ℕ) (k k' : Hash) (c c' : Chunk)
      → Marked now peers (k, c) (k', c')
      → is_finalized c' ≡ is_finalized c
  unfolding is_eligible
  Marked-is_finalized now peers k k' c c' (_, _, inl same) = ap (λ s. is_stored s.status) same
  Marked-is_finalized now peers k k' c c' (_, _, inr (due, (peer, m, moved))) =
      ap (λ s. is_stored s.status) moved ∙ sym (due_not_stored now c.status.at c.status.status due)

  AllMarked-all_finalized :
      (now : ℕ) (peers : List ℕ) (cs ds : List (Hash × Chunk))
      → AllMarked now peers cs ds
      → all_finalized ds ≡ all_finalized cs
  AllMarked-all_finalized now peers [] [] h = refl
  AllMarked-all_finalized now peers [] (d ∷ ds) h = absurd h
  AllMarked-all_finalized now peers (c ∷ cs) [] h = absurd h
  AllMarked-all_finalized now peers ((k, c) ∷ cs) ((k', c') ∷ ds) (m, ms) =
      rw (Marked-is_finalized now peers k k' c c' m, AllMarked-all_finalized now peers cs ds ms)
        refl

  AllMarked-AreCovered :
      (now : ℕ) (peers : List ℕ) (news : List (Hash × ℕ)) (cs ds : List (Hash × Chunk))
      → AllMarked now peers cs ds
      → AreCovered news cs
      → AreCovered news ds
  AllMarked-AreCovered now peers news [] [] h k = tt
  AllMarked-AreCovered now peers news [] (d ∷ ds) h k = absurd h
  AllMarked-AreCovered now peers news (c ∷ cs) [] h k = absurd h
  AllMarked-AreCovered now peers news ((k, c) ∷ cs) ((k', c') ∷ ds) (m, ms) (covered, rest) = (
    elim covered [
      | inl done ↦ inl (Marked-is_finalized now peers k k' c c' m ∙ done)
      | inr among ↦ inr (subst (λ j. Among j news) (sym m.0) among)
    ],
    AllMarked-AreCovered now peers news cs ds ms rest,
  )

  AllMarked-differ :
      (now : ℕ) (peers : List ℕ) (j : Hash) (cs ds : List (Hash × Chunk))
      → AllMarked now peers cs ds
      → All (λ q. q.0 ≢ j) cs
      → All (λ q. q.0 ≢ j) ds
  AllMarked-differ now peers j [] [] h k = tt
  AllMarked-differ now peers j [] (d ∷ ds) h k = absurd h
  AllMarked-differ now peers j (c ∷ cs) [] h k = absurd h
  AllMarked-differ now peers j ((k, c) ∷ cs) ((k', c') ∷ ds) (m, ms) (ne, rest) =
      ((λ e. ne (sym m.0 ∙ e)), AllMarked-differ now peers j cs ds ms rest)

  AllMarked-AreDistinct :
      (now : ℕ) (peers : List ℕ) (cs ds : List (Hash × Chunk))
      → AllMarked now peers cs ds
      → AreDistinct cs
      → AreDistinct ds
  AllMarked-AreDistinct now peers [] [] h k = tt
  AllMarked-AreDistinct now peers [] (d ∷ ds) h k = absurd h
  AllMarked-AreDistinct now peers (c ∷ cs) [] h k = absurd h
  AllMarked-AreDistinct now peers ((k, c) ∷ cs) ((k', c') ∷ ds) (m, ms) (differ, rest) = (
    subst (λ j. All (λ q. q.0 ≢ j) ds) (sym m.0) (AllMarked-differ now peers k cs ds ms differ),
    AllMarked-AreDistinct now peers cs ds ms rest,
  )

  pub AllMarked-IsGood :
      (now : ℕ) (peers : List ℕ) (news : List (Hash × ℕ)) (cs ds : List (Hash × Chunk))
      → AllMarked now peers cs ds
      → IsGood news cs
      → IsGood news ds
  AllMarked-IsGood now peers news cs ds m (distinct, covered, open') = (
    AllMarked-AreDistinct now peers cs ds m distinct,
    AllMarked-AreCovered now peers news cs ds m covered,
    AllMarked-all_finalized now peers cs ds m ∙ open',
  )

module _ {Hash : Type 0} ⦃hash_eq : Eq Hash⦄ where
  pub modify-absent :
      (h : Hash) (f : Chunk → Chunk) (cs : List (Hash × Chunk))
      → lookup h cs ≡ none
      → modify h f cs ≡ cs
  modify-absent h f [] e = refl
  modify-absent h f ((k, c) ∷ cs) e = ground (arith, modify-absent h f cs)

  modify-differ :
      (h j : Hash) (f : Chunk → Chunk) (cs : List (Hash × Chunk))
      → All (λ q. q.0 ≢ j) cs
      → All (λ q. q.0 ≢ j) (modify h f cs)
  modify-differ h j f [] d = tt
  modify-differ h j f ((k, c) ∷ cs) (ne, d) = elim (Bool-cases (k == h)) [
    | inl same ↦ rw same (ne, d)
    | inr other ↦ rw other (ne, modify-differ h j f cs d)
  ]

  modify-AreDistinct :
      (h : Hash) (f : Chunk → Chunk) (cs : List (Hash × Chunk))
      → AreDistinct cs
      → AreDistinct (modify h f cs)
  modify-AreDistinct h f [] d = tt
  modify-AreDistinct h f ((k, c) ∷ cs) (d, ds) = elim (Bool-cases (k == h)) [
    | inl same ↦ rw same (d, ds)
    | inr other ↦ rw other (modify-differ h k f cs d, modify-AreDistinct h f cs ds)
  ]

  -- The first of the news is used up where it names none of these chunks.
  others_covered :
      (h : Hash) (owner : ℕ) (news : List (Hash × ℕ)) (cs : List (Hash × Chunk))
      → All (λ q. q.0 ≢ h) cs
      → AreCovered ((h, owner) ∷ news) cs
      → AreCovered news cs
  others_covered h owner news [] d c = tt
  others_covered h owner news ((k, c) ∷ cs) (ne, d) (inl done, rest) =
      (inl done, others_covered h owner news cs d rest)
  others_covered h owner news ((k, c) ∷ cs) (ne, d) (inr (inl same), rest) = absurd (ne same)
  others_covered h owner news ((k, c) ∷ cs) (ne, d) (inr (inr among), rest) =
      (inr among, others_covered h owner news cs d rest)

  modify-AreCovered :
      (h : Hash) (owner : ℕ) (news : List (Hash × ℕ)) (f : Chunk → Chunk) (cs : List (Hash × Chunk))
      → ((c : Chunk) → is_finalized (f c) ≡ true)
      → AreDistinct cs
      → AreCovered ((h, owner) ∷ news) cs
      → AreCovered news (modify h f cs)
  modify-AreCovered h owner news f [] fin d c = tt
  modify-AreCovered h owner news f ((k, c) ∷ cs) fin (d, ds) (covered, rest) =
      elim (Bool-cases (k == h)) [
        | inl same ↦
            let is_h = (hash_eq.beq_iff k h).0 same in
            rw same (
              inl (fin c),
              others_covered h owner news cs (subst (λ j. All (λ q. q.0 ≢ j) cs) is_h d) rest,
            )
        | inr other ↦ rw other (
          elim covered [
            | inl done ↦ inl done
            | inr (inl is_h) ↦ absurd (ground (arith, hash_eq.beq_iff k h))
            | inr (inr among) ↦ inr among
          ],
          modify-AreCovered h owner news f cs fin ds rest,
        )
      ]

  pub modify-IsGood :
      (h : Hash) (owner : ℕ) (news : List (Hash × ℕ)) (f : Chunk → Chunk) (cs : List (Hash × Chunk))
      → ((c : Chunk) → is_finalized (f c) ≡ true)
      → all_finalized (modify h f cs) ≡ false
      → IsGood ((h, owner) ∷ news) cs
      → IsGood news (modify h f cs)
  modify-IsGood h owner news f cs fin still_open (distinct, covered, open') = (
    modify-AreDistinct h f cs distinct,
    modify-AreCovered h owner news f cs fin distinct covered,
    still_open,
  )
