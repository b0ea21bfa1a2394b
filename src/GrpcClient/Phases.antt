-- ===== src/GrpcClient/Phases.antt =====
-- grpcclient/client.go: what one step of the goroutine, or one receiving, keeps of a watcher.
use lainlet.Base.{
  ◌≡◌, refl, sym, ◌∙◌, ◌⊎◌, inl, inr, true, Option, none, some, List, [], ◌∷◌, ◌++◌, Text, nat_eq,
  text_eq, is_some,
}
use lainlet.GrpcClient.{
  Phase, receiving, offering, failing, stopped, Reader, after_recv, go_on, receive,
}
use lainlet.GrpcClient.Turns.{took, held, offered, HasFailed, IsConsistent, IsServed, IsResult}

module _ {R : Type 0} where
  -- What a step of the goroutine keeps of its watcher.
  abbrev pub Reads : Phase R → Reader R → Reader R → Type 0
  Reads phase w w' =
      (offered w'.phase ++ w'.stream.replies ≡ offered phase ++ w.stream.replies)
      × (w'.stream.failure ≡ w.stream.failure)
      × IsConsistent w'.phase w'
      × (phase ≡ stopped → w'.phase ≡ stopped)

  pub after_recv-Reads :
      (w : Reader R) (replies : List R) (failure : Option Text)
      → w.phase ≡ receiving
      → w.stream.replies ≡ replies
      → w.stream.failure ≡ failure
      → w.error ≡ none
      → Reads receiving w (after_recv w replies failure)
  unfolding after_recv
  after_recv-Reads w (r ∷ rs) failure p e f fresh = (sym e, sym f, fresh, (λ q. cc))
  after_recv-Reads w [] (some m) p e f fresh = (refl, refl, (e, rw f refl, sym f), (λ q. cc))
  after_recv-Reads w [] none p e f fresh = (rw p refl, refl, rw p fresh, (λ q. cc))

  pub go_on-Reads :
      (phase : Phase R) (w : Reader R)
      → w.phase ≡ phase
      → IsConsistent phase w
      → Reads phase w (go_on phase w)
  unfolding go_on
  go_on-Reads receiving w p c = after_recv-Reads w w.stream.replies w.stream.failure p refl refl c
  go_on-Reads (offering r) w p c = (rw p refl, refl, rw p c, (λ q. cc))
  go_on-Reads failing w p c = (refl, refl, c, (λ q. cc))
  go_on-Reads stopped w p c = (rw p refl, refl, rw p c, (λ q. p))

  -- What receiving moves from the goroutine to the caller.
  abbrev pub Received : Phase R → Reader R → Option (Option R × Reader R) → Type 0
  Received phase w none = Unit {0}
  Received phase w (some (rpl, w')) =
      (held (took rpl) ++ (offered w'.phase ++ w'.stream.replies)
        ≡ offered phase ++ w.stream.replies)
      × (w'.stream.failure ≡ w.stream.failure)
      × IsConsistent w'.phase w'
      × IsServed (took rpl) w'.phase

  pub receive-Received :
      (phase : Phase R) (w : Reader R)
      → w.phase ≡ phase
      → IsConsistent phase w
      → Received phase w (receive phase w)
  unfolding receive
  receive-Received receiving w p c = tt
  receive-Received (offering r) w p c = (refl, refl, c, tt)
  receive-Received failing w p c = tt
  receive-Received stopped w p c = (rw p refl, refl, rw p c, p)

  -- The goroutine has reported its error: nothing is left, neither in the channel nor in the stream.
  pub failed-nothing :
      (phase : Phase R) (w : Reader R)
      → IsConsistent phase w
      → is_some w.error ≡ true
      → offered phase ++ w.stream.replies ≡ []
  failed-nothing receiving w c h = cc (rw c at h)
  failed-nothing (offering r) w c h = cc (rw c at h)
  failed-nothing failing w c h = c.0
  failed-nothing stopped w c h = c.0

  pub error_cases :
      (phase : Phase R) (w : Reader R)
      → IsConsistent phase w
      → (w.error ≡ none) ⊎ (w.error ≡ w.stream.failure)
  error_cases receiving w c = inl c
  error_cases (offering r) w c = inl c
  error_cases failing w c = inr c.2
  error_cases stopped w c = inr c.2

  pub stopped-failed :
      (phase : Phase R) (w : Reader R) → IsConsistent phase w → phase ≡ stopped → HasFailed w
  stopped-failed receiving w c e = cc e
  stopped-failed (offering r) w c e = cc e
  stopped-failed failing w c e = cc e
  stopped-failed stopped w c e = c

  pub returned-IsResult :
      (rpl : Option R) (phase : Phase R) (w : Reader R) (failure : Option Text)
      → w.stream.failure ≡ failure
      → IsConsistent phase w
      → IsServed (took rpl) phase
      → IsResult failure (rpl, w.error)
  returned-IsResult none phase w failure f c at_end =
      let failed = stopped-failed phase w c at_end in (failed.2 ∙ f, rw f at failed.1)
  returned-IsResult (some r) phase w failure f c at_end = rw⁻¹ f (error_cases phase w c)
