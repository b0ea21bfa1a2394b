-- ===== src/GrpcClient/Answers.antt =====
-- grpcclient/client.go: that a call of `Next` ends, over a stream that ends.
use lainlet.Base.{
  ℕ, suc, ◌≤◌, ◌≡◌, refl, ap, ◌∙◌, ◌⊎◌, inl, inr, true, Option, none, some, List, [], ◌∷◌, ◌++◌,
  arith, Text, nat_eq, text_eq, is_some,
}
use lainlet.GrpcClient.{
  Stream, Phase, receiving, offering, failing, stopped, Reader, after_recv, go_on, receive,
}
use lainlet.GrpcClient.Turns.{idle, waiting, System, Step, reads, receives, returns, Reach}
use lainlet.GrpcClient.Delivery.{Reach-Inv}

module _ {R : Type 0} where
  -- Some steps, how many there are
  pub data Steps (s : System R) : ℕ → System R → Type 0 where
    start : Steps s 0 s
    step : {n : ℕ} {t u : System R} → Steps s n t → Step t u → Steps s (suc n) u

  first : {s t u : System R} {n : ℕ} → Step s t → Steps t n u → Steps s (suc n) u
  first x start = step start x
  first x (step more y) = step (first x more) y

  -- Some steps end the call of Next with a result.
  abbrev pub Answers : ℕ → System R → Type 0
  Answers n s =
      (t : System R) × (x : Option R × Option Text) × Steps s n t
      × (t.caller ≡ idle)
      × (t.results ≡ s.results ++ x ∷ [])

  receive-Answers :
      (s : System R) (rpl : Option R) (w : Reader R)
      → s.caller ≡ waiting
      → receive s.reader.phase s.reader ≡ some (rpl, w)
      → Answers 2 s
  receive-Answers s rpl w e got =
      (_, _, step (step start (receives rpl w e got)) (returns rpl refl), refl, refl)

  reads-Answers :
      (s : System R) (n : ℕ)
      → Answers n (record s { reader = go_on s.reader.phase s.reader })
      → Answers (suc n) s
  reads-Answers s n (t, x, steps, at, results) = (t, x, first reads steps, at, results)

  after_recv-phase :
      (w : Reader R) (replies : List R) (failure : Option Text)
      → is_some failure ≡ true
      → ((r : R) × ((after_recv w replies failure).phase ≡ offering r))
        ⊎ ((after_recv w replies failure).phase ≡ failing)
  unfolding after_recv
  after_recv-phase w (r ∷ rs) failure h = inl (r, refl)
  after_recv-phase w [] (some m) h = inr refl
  after_recv-phase w [] none h = cc h

  offering-Answers :
      (s : System R) (r : R) → s.caller ≡ waiting → s.reader.phase ≡ offering r → Answers 2 s
  unfolding receive
  offering-Answers s r e p =
      receive-Answers s (some r) (record s.reader { phase = receiving }) e (rw p refl)

  stopped-Answers : (s : System R) → s.caller ≡ waiting → s.reader.phase ≡ stopped → Answers 2 s
  unfolding receive
  stopped-Answers s e p = receive-Answers s none s.reader e (rw p refl)

  failing-Answers : (s : System R) → s.caller ≡ waiting → s.reader.phase ≡ failing → Answers 3 s
  unfolding go_on
  failing-Answers s e p = reads-Answers s 2 (stopped-Answers _ e (rw p refl))

  -- Whether a call ends within four steps.
  abbrev pub AnswersSoon : System R → Type 0
  AnswersSoon s = (n : ℕ) × (n ≤ 4) × Answers n s

  phase-AnswersSoon :
      (phase : Phase R) (s : System R)
      → s.reader.phase ≡ phase
      → s.caller ≡ waiting
      → is_some s.reader.stream.failure ≡ true
      → AnswersSoon s
  unfolding go_on
  phase-AnswersSoon receiving s p e h =
      let w = s.reader in
      let moved = ap (λ ph. (go_on ph w).phase) p in
      elim (after_recv-phase w w.stream.replies w.stream.failure h) [
        | inl (r, q) ↦ (3, ground arith, reads-Answers s 2 (offering-Answers _ r e (moved ∙ q)))
        | inr q ↦ (4, ground arith, reads-Answers s 3 (failing-Answers _ e (moved ∙ q)))
      ]
  phase-AnswersSoon (offering r) s p e h = (2, ground arith, offering-Answers s r e p)
  phase-AnswersSoon failing s p e h = (3, ground arith, failing-Answers s e p)
  phase-AnswersSoon stopped s p e h = (2, ground arith, stopped-Answers s e p)

  -- A call of Next need not hang over a stream that ends: wherever a new watcher and its caller have
  -- come to, if the caller is in Next, there are at most four steps of the goroutine and of the call
  -- that end the call with one more result.
  pub Reach-AnswersSoon :
      (stream : Stream R) {s : System R}
      → Reach stream s
      → is_some stream.failure ≡ true
      → s.caller ≡ waiting
      → AnswersSoon s
  Reach-AnswersSoon stream {s} run h e =
      phase-AnswersSoon s.reader.phase s refl e (rw (Reach-Inv stream run).same h)
