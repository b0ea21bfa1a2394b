-- ===== src/GrpcClient/Turns.antt =====
-- grpcclient/client.go: a watcher and the goroutine that calls its `Next`, as a step relation.
use lainlet.Base.{
  ◌≡◌, ◌⊎◌, Bool, true, Option, none, some, List, [], ◌∷◌, ◌++◌, Text, nat_eq, text_eq, is_some,
  any, All,
}
use lainlet.GrpcClient.{
  Stream, Phase, receiving, offering, failing, stopped, Reader, go_on, receive, next_result,
}

-- Where the caller stands: outside of Next, at the channel, or with what it received.
pub data Caller (R : Type 0) : Type 0 where
  idle : Caller R
  waiting : Caller R
  took : Option R → Caller R

pub record System (R : Type 0) : Type 0 where
  pub reader : Reader R
  pub caller : Caller R
  pub results : List (Option R × Option Text)

module _ {R : Type 0} where
  -- One step of the goroutine of `Watch`, or of the caller.
  pub data Step (s : System R) : System R → Type 0 where
    reads : Step s (record s { reader = go_on s.reader.phase s.reader })
    calls : s.caller ≡ idle → Step s (record s { caller = waiting })
    receives :
        (rpl : Option R) (w : Reader R)
        → s.caller ≡ waiting
        → receive s.reader.phase s.reader ≡ some (rpl, w)
        → Step s (record s { reader = w; caller = took rpl })
    returns :
        (rpl : Option R)
        → s.caller ≡ took rpl
        → Step s (record s { caller = idle; results = s.results ++ next_result rpl s.reader ∷ [] })

  -- What a new watcher over a stream may come to.
  pub data Reach (stream : Stream R) : System R → Type 0 where
    opened : Reach stream (record {
      reader = record { phase = receiving; stream = stream; error = none };
      caller = idle;
      results = [];
    })
    next : {s t : System R} → Reach stream s → Step s t → Reach stream t

  -- The replies among what Next returned.
  abbrev pub delivered : List (Option R × Option Text) → List R
  delivered [] = []
  delivered ((none, e) ∷ results) = delivered results
  delivered ((some r, e) ∷ results) = r ∷ delivered results

  abbrev pub held : Caller R → List R
  held idle = []
  held waiting = []
  held (took none) = []
  held (took (some r)) = r ∷ []

  abbrev pub offered : Phase R → List R
  offered receiving = []
  offered (offering r) = r ∷ []
  offered failing = []
  offered stopped = []

  -- The replies that Next has not returned yet, in their order.
  abbrev pub in_flight : System R → List R
  in_flight s = held s.caller ++ (offered s.reader.phase ++ s.reader.stream.replies)

  -- The goroutine has met the end of its stream.
  abbrev pub HasFailed : Reader R → Type 0
  HasFailed w =
      (w.stream.replies ≡ []) × (is_some w.stream.failure ≡ true) × (w.error ≡ w.stream.failure)

  -- What the error of a watcher says in each phase.
  abbrev pub IsConsistent : Phase R → Reader R → Type 0
  IsConsistent receiving w = w.error ≡ none
  IsConsistent (offering r) w = w.error ≡ none
  IsConsistent failing w = HasFailed w
  IsConsistent stopped w = HasFailed w

  -- A caller that received nil did so from the closed channel.
  abbrev pub IsServed : Caller R → Phase R → Type 0
  IsServed (took none) phase = phase ≡ stopped
  IsServed _ phase = Unit {0}

  -- A result without a reply has the error of the stream; one with an error comes when no reply is left.
  abbrev pub IsResult : Option Text → Option R × Option Text → Type 0
  IsResult failure (none, e) = (e ≡ failure) × (is_some failure ≡ true)
  IsResult failure (some r, e) = (e ≡ none) ⊎ (e ≡ failure)

  abbrev pub has_error : Option R × Option Text → Bool
  has_error x = is_some x.1

  pub record Inv (stream : Stream R) (s : System R) : Type 0 where
    pub whole : delivered s.results ++ in_flight s ≡ stream.replies
    pub same : s.reader.stream.failure ≡ stream.failure
    pub consistent : IsConsistent s.reader.phase s.reader
    pub served : IsServed s.caller s.reader.phase
    pub answers : All (IsResult stream.failure) s.results
    pub last : any has_error s.results ≡ true → in_flight s ≡ []
