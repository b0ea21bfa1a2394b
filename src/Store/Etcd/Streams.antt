-- ===== src/Store/Etcd/Streams.antt =====
-- store/etcd/etcd.go: the goroutines of `Watch` and `WatchTree`, as functions of the results that
-- the client's watcher yields, one after the other.
use lainlet.Base.{
  ◌≡◌, refl, ◌≢◌, Bool, true, false, ◌&&◌, List, [], ◌∷◌, ◌++◌, map, arith, if◌then◌else◌, Text,
  ◌==◌, nat_eq, text_eq, All, codes,
}
use lainlet.Store.{Action, Event, KvPair, Answer, found, key_not_found, failure}
use lainlet.Store.Etcd.{
  Node, node_key, pair_of, ClientError, other_error, action_map, delete_event, error_event,
}

-- What `watcher.Next` returns: an action with its node, or an error.
pub data Next : Type 0 where
  result : Text → Node → Next
  broken : ClientError → Next

-- The event that is sent for a result.
unfoldable pub event_of : Text → Node → List KvPair → Event
event_of action n pairs = record {
  action = action_map action;
  key = node_key n;
  modified_index = (pair_of n).last_index;
  pairs = pairs;
}

-- What a goroutine has done after the results so far: the events that it sent, and whether it
-- returned and closed the channel.
pub record Sent : Type 0 where
  pub events : List Event
  pub closed : Bool

abbrev pub waiting : Sent
waiting = record { events = []; closed = false }

abbrev pub last_event : Event → Sent
last_event e = record { events = e ∷ []; closed = true }

abbrev pub send : Event → Sent → Sent
send e s = record s { events = e ∷ s.events }

-- Etcd.Watch
unfoldable pub watch : Text → List Next → Sent
watch key [] = waiting
watch key (broken e ∷ rest) = last_event (error_event key e)
watch key (result action n ∷ rest) = send (event_of action n (pair_of n ∷ [])) (watch key rest)

-- Etcd.WatchTree; each result comes with the answer of the `GetTree` that follows it.
unfoldable pub watch_tree : Text → List (Next × Answer (List KvPair)) → Sent
watch_tree directory [] = waiting
watch_tree directory ((broken e, tree) ∷ rest) = last_event (error_event directory e)
watch_tree directory ((result action n, tree) ∷ rest) =
    let later = watch_tree directory rest in
    if action == codes "delete" && node_key n == directory
    then last_event (delete_event (node_key n))
    else elim tree [
      | key_not_found ↦ send (delete_event directory) later
      | failure m ↦ last_event (error_event directory (other_error m))
      | found pairs ↦ send (event_of action n pairs) later
    ]

-- Whether the channel carries errors only as its last event, just before it is closed.
abbrev pub EndsAtError : List Event → Bool → Type 0
EndsAtError [] closed = Unit
EndsAtError (e ∷ []) closed = e.action ≡ Action.error → closed ≡ true
EndsAtError (e ∷ f ∷ es) closed = (e.action ≢ Action.error) × EndsAtError (f ∷ es) closed

-- `result` is never turned into an error event, unless the action's name is "error".
abbrev pub NoErrorName : List Next → Type 0
NoErrorName = All (λ r. elim r [ result action n ↦ action ≢ codes "error" | broken e ↦ Unit ])

action_map-ne-error : (a : Text) → a ≢ codes "error" → action_map a ≢ Action.error
unfolding action_map
action_map-ne-error a h = ground arith

EndsAtError-cons :
    (e : Event) (es : List Event) (closed : Bool)
    → e.action ≢ Action.error
    → EndsAtError es closed
    → EndsAtError (e ∷ es) closed
EndsAtError-cons e [] closed h k = λ p. absurd (h p)
EndsAtError-cons e (f ∷ es) closed h k = (h, k)

-- If the client names no action "error", an error event of `Watch` is the last event of its channel,
-- and the channel is closed behind it.
pub watch-EndsAtError :
    (key : Text) (rs : List Next)
    → NoErrorName rs
    → EndsAtError (watch key rs).events (watch key rs).closed
unfolding watch
watch-EndsAtError key [] h = tt
watch-EndsAtError key (broken e ∷ rest) h = λ _. refl
watch-EndsAtError key (result action n ∷ rest) (h, hs) =
    EndsAtError-cons (event_of action n (pair_of n ∷ [])) _ _
      (unfold event_of in action_map-ne-error action h) (watch-EndsAtError key rest hs)

-- While the client yields results, `Watch` sends one event for each and stays open.
pub watch_results :
    (key : Text) (rs : List (Text × Node)) (more : List Next)
    → watch key (map (λ r. result r.0 r.1) rs ++ more) ≡ record {
      events = map (λ r. event_of r.0 r.1 (pair_of r.1 ∷ [])) rs ++ (watch key more).events;
      closed = (watch key more).closed;
    }
unfolding watch
watch_results key [] more = refl
watch_results key (r ∷ rs) more = cc (watch_results key rs more)
