-- ===== src/Tests/Streams.antt =====
-- Examples for grpcclient/ and for the event source of api/event.go.
use lainlet.Base.{
  ℕ, ◌≡◌, refl, Bool, true, false, Option, none, some, List, [], ◌∷◌, ◌++◌, if◌then◌else◌, Text,
  nat_eq, text_eq, ok, panic, any, All, codes,
}
use lainlet.GrpcClient.{Stream, offering, failing, after_recv, go_on, receive, next_result}
use lainlet.GrpcClient.Turns.{
  Caller, idle, waiting, took, System, Step, reads, calls, receives, returns, Reach, next,
  delivered, in_flight, IsResult, has_error,
}
use lainlet.GrpcClient.Turns
use lainlet.GrpcClient.Turns.{waiting}
use lainlet.Api.EventSource.Closing
use lainlet.GrpcClient.Delivery.{Reach-delivered}
use lainlet.GrpcClient.Answers.{AnswersSoon, Reach-AnswersSoon}
use lainlet.Api.EventSource.{
  EventSource, made, string, Op, sends, closes, ends, client_sends, header_lines, write_header,
  new_event_source, apply, run,
}
use lainlet.Api.EventSource.Closing.{lives, traffic, written, closing, run-new_event_source}

abbrev gone : Text
gone = codes "gone"

-- Two replies, and then an error.
abbrev news : Stream ℕ
news = record { replies = 7 ∷ 8 ∷ []; failure = some gone }

-- Two calls of Next; the goroutine meets the end between the receiving and the reading of the second.
abbrev after_two : System ℕ
after_two = record {
  reader = record {
    phase = failing;
    stream = record { replies = []; failure = some gone };
    error = some gone;
  };
  caller = idle;
  results = (some 7, none) ∷ (some 8, some gone) ∷ [];
}

two_calls : Reach news after_two
unfolding go_on after_recv receive next_result
two_calls =
    next
      (next
        (next
          (next
            (next
              (next (next (next (next Turns.opened reads) (calls refl)) (receives _ _ refl refl))
                reads)
              (returns _ refl))
            (calls refl))
          (receives _ _ refl refl))
        reads)
      (returns _ refl)

Reach-delivered_example :
    (delivered after_two.results ++ in_flight after_two ≡ news.replies)
    × All (IsResult news.failure) after_two.results
    × (any has_error after_two.results ≡ true → in_flight after_two ≡ [])
Reach-delivered_example = Reach-delivered news two_calls

-- The first call, before it has received the reply that the goroutine offers.
abbrev in_call : System ℕ
in_call = record {
  reader = record {
    phase = offering 7;
    stream = record { replies = 8 ∷ []; failure = some gone };
    error = none;
  };
  caller = waiting;
  results = [];
}

half_a_call : Reach news in_call
unfolding go_on after_recv
half_a_call = next (next Turns.opened reads) (calls refl)

Reach-AnswersSoon_example : AnswersSoon in_call
Reach-AnswersSoon_example = Reach-AnswersSoon news half_a_call refl refl

-- A connection that keeps what is written, and takes nothing when it is closed.
abbrev Conn : Type 0
Conn = Text × Bool

abbrev write : Conn → Text → Conn × Option Text
write (sent, true) text = ((sent, true), some gone)
write (sent, false) text = ((sent ++ text, false), none)

abbrev close : Conn → Conn
close (sent, closed) = (sent, true)

abbrev fresh : Conn
fresh = ([], false)

abbrev source : EventSource Conn
source = Closing.opened (written write close header_lines fresh) false

fresh-made : new_event_source write close (some (ok fresh)) ≡ made source
unfolding new_event_source write_header
fresh-made = refl

abbrev ops : List Op
ops = sends 1 (codes "init") (string (codes "{}")) ∷ ends ∷ closes ∷ client_sends ∷ []

run-new_event_source_example : run write close ops source ≡ (
    if lives ops false
    then ok (
        Closing.opened
          (traffic write close ops false (written write close header_lines fresh))
          (any closing ops))
    else panic)
run-new_event_source_example = run-new_event_source write close fresh fresh-made ops

-- A byte of the client, before anything is closed, ends the process.
client-ends : run write close (client_sends ∷ []) source ≡ panic
unfolding run apply
client-ends = refl
