-- ===== src/Tests/Changes.antt =====
-- Examples for a stream of changes, from the handler to the client.
use lainlet.Base.{
  ℕ, ◌≡◌, refl, Bool, true, false, not, Option, none, some, List, [], ◌∷◌, ◌++◌, map, arith, Text,
  nat_eq, text_eq, Text-discrete, Result, ok, codes, has_prefix, ℕ_discrete,
}
use lainlet.Base.{GoMap, lookup, insert}
use lainlet.Store.{Action, action_name}
use lainlet.Watcher.Cacher.{Data}
use lainlet.Watcher.Sender.{Event}
use lainlet.Auth.{Auth}
use lainlet.Auth.Convert.{init}
use lainlet.Api.Keys.{Request, get_string, is_secret, config_key}
use lainlet.Api.Server.{Message, init_watch, watch_loop, handle_watch}
use lainlet.Api.Server.Stream
use lainlet.Api.Server.Watch.{last_content}
use lainlet.Api.Server.Stream.{
  WithBeats, beats, own, beat_message, seen, IsSentLine, send, write_all, keep_open,
  watch_client-view,
}
use lainlet.Api.V2.Common.{deep_equal, is_within}
use lainlet.Api.V2.Simple.{config_data, config_make}
use lainlet.Api.V2.Apis.{config_api}
use lainlet.Api.Serve.{Call, serve_all, expected, panics, IsApiPath, serve_all-expected}
use lainlet.Base.{All, ℕ, ◌+◌, ◌%◌, ◌^◌, map}
use lainlet.Api.EventSource.{made, crashed, header_lines, new_event_source}
use lainlet.Api.EventSource.Closing
use lainlet.Api.EventSource.Closing.{written}
use lainlet.Api.Middleware.{serve_stream}
use lainlet.Wire.{is_space, starts_space, trim_left, trim_left_from, trim_right, watch_body}
use lainlet.Wire.RoundTrip.{text_of}

-- An encoding of the configuration that tells only whether there is something in it.
abbrev text : Option (GoMap Text) → Text
text none = codes "null"
text (some []) = codes "{}"
text (some (x ∷ m)) = codes "{ ... }"

abbrev same : Option (GoMap Text) → Option (GoMap Text) → Bool
same s none = false
same s (some n) = deep_equal s n

same-text : (s t : Option (GoMap Text)) → same s t ≡ true → text s ≡ text t
unfolding deep_equal
same-text s none e = cc e
same-text none (some n) e = cc e
same-text (some []) (some []) e = refl
same-text (some []) (some (y ∷ n)) e = ground (arith, e)
same-text (some (x ∷ m)) (some []) e = ground (arith, e)
same-text (some (x ∷ m)) (some (y ∷ n)) e = refl

text-IsSentLine : (s : Option (GoMap Text)) → IsSentLine (text s)
unfolding trim_left trim_left_from starts_space is_space trim_right Text-discrete ℕ_discrete
text-IsSentLine none = (((λ e. cc), (refl, refl)), refl)
text-IsSentLine (some []) = (((λ e. cc), (refl, refl)), refl)
text-IsSentLine (some (x ∷ m)) = (((λ e. cc), (refl, refl)), refl)

abbrev auth : Auth
auth = init (codes "10.0.0.1") false

abbrev render : Data Text → Option (GoMap Text)
render d = some (config_data d [])

config_api-make :
    (s : Option (GoMap Text)) (d : Data Text)
    → Unit {0}
    → (config_api auth (λ m. ok (text m))).make s d ≡ ok (render d, not (same s (render d)))
unfolding config_api config_make
config_api-make s d good = refl

abbrev request : Request
request = record { remote_addr = codes "127.0.0.1:80"; form = (codes "target", codes "a") ∷ [] }

abbrev one : Data Text
one = (codes "a", some (codes "1")) ∷ []

abbrev found_one : Text → Text → Result (Data Text)
found_one name key = ok one

-- The first event changes nothing, the second does.
abbrev events : List (Event Text)
events =
    record { id = 2; action = Action.set; content = one }
    ∷ record { id = 3; action = Action.delete; content = [] }
    ∷ []

abbrev message : ℕ → Action → Text → Message
message id action content = record { id = id; event = action_name action; content = content }

-- A heartbeat before each of the two messages, and one behind them.
abbrev sent : List Message
sent =
    beat_message
    ∷ message 1 Action.init (codes "{ ... }")
    ∷ beat_message
    ∷ message 3 Action.delete (codes "{}")
    ∷ beat_message
    ∷ []

sent-WithBeats :
    WithBeats
      (handle_watch (config_api auth (λ m. ok (text m))) none found_one request (ok events)).0
      sent
unfolding handle_watch init_watch watch_loop action_name config_api config_make config_data
    deep_equal is_within config_key get_string is_secret lookup insert has_prefix Text-discrete
    ℕ_discrete
sent-WithBeats = beats (own (beats (own (beats Stream.ended))))

abbrev header : Text
header = written write_all keep_open header_lines []

watch_client-view_example :
    (new_event_source write_all keep_open (some (ok [])) ≡ made (Closing.opened header false))
    × (serve_stream write_all keep_open (map send sent) (ok tt) (Closing.opened header false)
        ≡ ok (Closing.opened (header ++ text_of sent) true))
    × (seen [] (watch_body (text_of sent)) ≡ text (render (last_content one events)))
unfolding config_api config_key get_string is_secret lookup has_prefix Text-discrete ℕ_discrete
watch_client-view_example =
    watch_client-view (config_api auth (λ m. ok (text m))) render text same same-text
      (λ d. Unit {0}) config_api-make (λ s. refl) text-IsSentLine none found_one request (codes "a")
      one events sent refl refl refl refl tt (refl, (refl, tt)) (tt, (tt, tt))
      (ground arith, (ground arith, tt)) sent-WithBeats

-- A query, and then a stream for which Hijack fails.
abbrev calls : List (Call Text)
calls =
    record { path = codes "/v2/configwatcher"; new_source = crashed; request = request }
    ∷ record {
      path = codes "/v2/configwatcher";
      new_source = crashed;
      request = record request { form = (codes "watch", codes "1") ∷ request.form };
    }
    ∷ []

abbrev methods_for : Text → List Text
methods_for path = codes "GET" ∷ []

calls-IsApiPath :
    All
      (IsApiPath {C = Text}
        (config_api auth (λ m. ok (text m)))
        none
        found_one
        (ok events)
        methods_for)
      calls
unfolding has_prefix ℕ_discrete
calls-IsApiPath = ((refl, refl), ((refl, refl), tt))

serve_all-expected_example :
    serve_all (config_api auth (λ m. ok (text m))) none found_one (ok events) methods_for calls 3
    ≡ (
      map
          (expected (config_api auth (λ m. ok (text m))) none found_one (ok events) methods_for)
          calls,
      (3
            + panics (
                map
                  (expected
                    (config_api auth (λ m. ok (text m)))
                    none
                    found_one
                    (ok events)
                    methods_for)
                  calls))
          % 2 ^ 32,
    )
serve_all-expected_example =
    serve_all-expected (config_api auth (λ m. ok (text m))) none found_one (ok events) methods_for
      calls 3 (ground arith) calls-IsApiPath
