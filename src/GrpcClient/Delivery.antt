-- ===== src/GrpcClient/Delivery.antt =====
-- grpcclient/client.go: what one goroutine that calls `Next` gets, however its calls and the goroutine
-- of `Watch` take turns.
use lainlet.Base.{
  ◌≡◌, refl, ap, ◌∙◌, inl, inr, true, ◌||◌, Option, none, some, List, [], ◌∷◌, ◌++◌, append_assoc,
  arith, Text, nat_eq, text_eq, Bool-cases, any, All, All-append,
}
use mathlib.Core.Path.{subst}
use lainlet.GrpcClient.{Stream, Phase, stopped, Reader, next_result}
use lainlet.GrpcClient.Turns.{
  Caller, idle, waiting, took, System, Step, reads, calls, receives, returns, Reach, opened, next,
  delivered, held, offered, in_flight, IsConsistent, IsServed, IsResult, has_error, Inv,
}
use lainlet.GrpcClient.Phases.{
  go_on-Reads, receive-Received, failed-nothing, returned-IsResult, Received,
}

module _ {R : Type 0} where
  delivered-append :
      (results : List (Option R × Option Text)) (x : Option R × Option Text)
      → delivered (results ++ x ∷ []) ≡ delivered results ++ delivered (x ∷ [])
  delivered-append [] x = refl
  delivered-append ((none, e) ∷ results) x = delivered-append results x
  delivered-append ((some r, e) ∷ results) x = ap (λ rs. r ∷ rs) (delivered-append results x)

  any-append :
      (results : List (Option R × Option Text)) (x : Option R × Option Text)
      → any has_error (results ++ x ∷ []) ≡ (any has_error results || has_error x)
  any-append [] x = ground arith
  any-append (y ∷ results) x = ground (arith, any-append results x)

  IsServed-stays :
      (caller : Caller R) (p q : Phase R)
      → IsServed caller p
      → (p ≡ stopped → q ≡ stopped)
      → IsServed caller q
  IsServed-stays idle p q h stays = tt
  IsServed-stays waiting p q h stays = tt
  IsServed-stays (took none) p q h stays = stays h
  IsServed-stays (took (some r)) p q h stays = tt

  append-right-nil : (xs ys : List R) → xs ++ ys ≡ [] → ys ≡ []
  append-right-nil [] ys e = e
  append-right-nil (x ∷ xs) ys e = cc e

  delivered-held : (rpl : Option R) (e : Option Text) → delivered ((rpl, e) ∷ []) ≡ held (took rpl)
  delivered-held none e = refl
  delivered-held (some r) e = refl

  returns-whole :
      (results : List (Option R × Option Text)) (rpl : Option R) (e : Option Text) (rest : List R)
      → delivered (results ++ (rpl, e) ∷ []) ++ rest
        ≡ delivered results ++ (held (took rpl) ++ rest)
  returns-whole results rpl e rest =
      rw (delivered-append results (rpl, e))
        (rw (delivered-held rpl e) (append_assoc (delivered results) (held (took rpl)) rest))

  returns-last :
      (results : List (Option R × Option Text)) (rpl : Option R) (phase : Phase R) (w : Reader R)
      → IsConsistent phase w
      → (any has_error results ≡ true → held (took rpl) ++ (offered phase ++ w.stream.replies) ≡ [])
      → any has_error (results ++ (rpl, w.error) ∷ []) ≡ true
      → offered phase ++ w.stream.replies ≡ []
  returns-last results rpl phase w c before h = elim (Bool-cases (any has_error results)) [
    | inl old ↦ append-right-nil (held (took rpl)) _ (before old)
    | inr none_old ↦
        failed-nothing phase w c (ground (arith, h, none_old, any-append results (rpl, w.error)))
  ]

  Step-Inv : (stream : Stream R) {s t : System R} → Step s t → Inv stream s → Inv stream t
  unfolding next_result
  Step-Inv stream {s} reads v =
      let (kept, same, consistent, stays) = go_on-Reads s.reader.phase s.reader refl v.consistent in
      record {
        whole = ap (λ x. delivered s.results ++ (held s.caller ++ x)) kept ∙ v.whole;
        same = same ∙ v.same;
        consistent = consistent;
        served = IsServed-stays s.caller _ _ v.served stays;
        answers = v.answers;
        last = λ h. ap (λ x. held s.caller ++ x) kept ∙ v.last h;
      }
  Step-Inv stream {s} (calls e) v = record {
    whole = rw e at v.whole;
    same = v.same;
    consistent = v.consistent;
    served = tt;
    answers = v.answers;
    last = λ h. rw e at v.last h;
  }
  Step-Inv stream {s} (receives rpl w e got) v =
      let (kept, same, consistent, served) =
        subst (λ x. Received s.reader.phase s.reader x) got
          (receive-Received s.reader.phase s.reader refl v.consistent) in
      record {
        whole = ap (λ x. delivered s.results ++ x) kept ∙ (rw e at v.whole);
        same = same ∙ v.same;
        consistent = consistent;
        served = served;
        answers = v.answers;
        last = λ h. kept ∙ (rw e at v.last h);
      }
  Step-Inv stream {s} (returns rpl e) v = record {
    whole = returns-whole s.results rpl s.reader.error _ ∙ (rw e at v.whole);
    same = v.same;
    consistent = v.consistent;
    served = tt;
    answers = All-append (IsResult stream.failure) s.results _ v.answers (
      returned-IsResult rpl s.reader.phase s.reader _ v.same v.consistent (rw e at v.served),
      tt,
    );
    last = returns-last s.results rpl s.reader.phase s.reader v.consistent (λ h. rw e at v.last h);
  }

  pub Reach-Inv : (stream : Stream R) {s : System R} → Reach stream s → Inv stream s
  Reach-Inv stream opened = record {
    whole = refl;
    same = refl;
    consistent = refl;
    served = tt;
    answers = tt;
    last = λ h. cc h;
  }
  Reach-Inv stream (next run step) = Step-Inv stream step (Reach-Inv stream run)

  -- Next delivers every reply of a stream once and in order: whatever steps a new watcher and its caller
  -- have taken, the replies that Next has returned, the reply on its way through the channel and those
  -- that the stream still holds are, in this order, the replies of the stream. A result without a reply
  -- has the error that ended the stream, one with a reply has that error or none, and a result with an
  -- error comes when no reply is left, neither on its way nor in the stream.
  pub Reach-delivered :
      (stream : Stream R) {s : System R}
      → Reach stream s
      → (delivered s.results ++ in_flight s ≡ stream.replies)
        × All (IsResult stream.failure) s.results
        × (any has_error s.results ≡ true → in_flight s ≡ [])
  Reach-delivered stream run = let v = Reach-Inv stream run in (v.whole, v.answers, v.last)
