-- ===== src/Api/Server.antt =====
-- api/server.go: the handlers that `Register` makes of an API, and api/maker.go, the interface. `V` is
-- what the watcher of the API converts to, `S` the instances of the API.
pub mod Get
pub mod Watch
pub mod Stream
use lainlet.Base.{
  ℕ, Bool, true, false, not, List, [], ◌∷◌, ◌++◌, if◌then◌else◌, Text, ◌==◌, nat_eq, text_eq,
  Result, ok, err, panic, ◌>>=◌, contains, codes,
}
use lainlet.Store.{Action, action_name}
use lainlet.Watcher.Cacher.{Data}
use lainlet.Watcher.Sender.{Event}
use lainlet.Api.Keys.{Request, get_bool}

-- api.API, and whether it is a BanWatcher
pub record Api (S V : Type 0) : Type 0 where
  pub uri : Text
  pub watcher_name : Text
  pub is_ban_watcher : Bool
  pub key : Request → Result Text
  pub make : S → Data V → Result (S × Bool)
  pub encode : S → Result Text

-- watcher.CONFIG, watcher.CONTAINER, watcher.PODGROUP, watcher.DEPENDS and watcher.NODES
abbrev pub watcher_names : List Text
watcher_names =
    codes "config" ∷ codes "container" ∷ codes "podgroup" ∷ codes "depends" ∷ codes "nodes" ∷ []

-- The path under which `Register` serves an API; an empty URI panics.
unfoldable pub route : Text → Result Text
route [] = panic
route (c ∷ uri) = ok (codes "/v2" ++ (if c == b'/' then c ∷ uri else b'/' ∷ c ∷ uri))

-- What `SendEvent` is called with, where it writes something.
pub record Message : Type 0 where
  pub id : ℕ
  pub event : Text
  pub content : Text

abbrev pub error_message : Text → Message
error_message m = record { id = 0; event = action_name Action.error; content = m }

-- event.Action == store.ERROR
abbrev pub is_error : Action → Bool
is_error Action.error = true
is_error _ = false

-- Return, with the status of a query whose key is granted
abbrev pub respond : Result Text → Result (ℕ × Text)
respond (ok content) = ok (200, content)
respond (err m) = ok (500, m)
respond panic = panic

-- How a handler ends.
pub data End : Type 0 where
  returned panicked : End

module _ {S V : Type 0} (api : Api S V) where
  -- What handleGet does with the key: Get, Make and Encode.
  unfoldable pub answer : S → Result (Data V) → Result Text
  answer s found = found >>= (λ items. api.make s items >>= (λ r. api.encode r.0))

  -- handleGet: the status code and the body; `get` is the Get of the watcher with a name.
  unfoldable pub handle_get : S → (Text → Text → Result (Data V)) → Request → Result (ℕ × Text)
  unfolding answer
  handle_get s get r = elim (api.key r) [
    | panic ↦ panic
    | err m ↦ ok (400, m)
    | ok key ↦
        if contains api.watcher_name watcher_names
        then respond (answer s (get api.watcher_name key))
        else ok (500, codes "Unkown watcher " ++ api.watcher_name)
  ]

  -- The loop of handleWatch over the events of its channel, until the channel is closed or the
  -- request is cancelled. `SendEvent` writes nothing for an ERROR event, whose data is a map.
  unfoldable pub watch_loop : S → List (Event V) → List Message × End
  watch_loop s [] = ([], returned)
  watch_loop s (e ∷ es) =
      if is_error e.action then watch_loop s es else elim (api.make s e.content) [
        | panic ↦ ([], panicked)
        | err m ↦ (error_message m ∷ [], returned)
        | ok (s', changed) ↦
            let (messages, end) = watch_loop s' es in
            if not changed then (messages, end) else elim (api.encode s') [
              | panic ↦ ([], panicked)
              | err m ↦ (error_message m ∷ [], returned)
              | ok content ↦ (
                record { id = e.id; event = action_name e.action; content = content } ∷ messages,
                end,
              )
            ]
      ]

  -- handleWatch up to the first message: the instance that it starts the loop with and that message,
  -- or the message of the error.
  unfoldable pub init_watch : S → (Text → Text → Result (Data V)) → Request → Result (S × Message)
  init_watch s get r =
      if api.is_ban_watcher
      then err (api.uri ++ codes " do not support watch action")
      else api.key r >>= (λ key.
        if contains api.watcher_name watcher_names
        then get api.watcher_name key >>= (λ items. api.make s items >>= (λ (s', _).
          api.encode s' >>= (λ content.
            ok (s', record { id = 1; event = action_name Action.init; content = content }))))
        else err (codes "500 unkown watcher"))

  -- handleWatch; the last argument is what the watcher's Watch returns, an error or the events.
  unfoldable pub handle_watch :
      S → (Text → Text → Result (Data V)) → Request → Result (List (Event V)) → List Message × End
  unfolding init_watch watch_loop
  handle_watch s get r events = elim (init_watch s get r) [
    | panic ↦ ([], panicked)
    | err m ↦ (error_message m ∷ [], returned)
    | ok (s', first) ↦ elim events [
      | panic ↦ (first ∷ [], panicked)
      | err m ↦ (first ∷ error_message m ∷ [], returned)
      | ok es ↦ let (messages, end) = watch_loop s' es in (first ∷ messages, end)
    ]
  ]
