-- ===== src/Api/Server/Watch.antt =====
-- api/server.go: what the client of handleWatch is told.
use lainlet.Base.{
  ◌≡◌, refl, ap, ◌∙◌, inl, inr, Bool, true, false, not, List, [], ◌∷◌, Text, nat_eq, text_eq,
  Bool-cases, Result, ok, contains, All,
}
use lainlet.Store.{Action, action_name}
use lainlet.Watcher.Cacher.{Data}
use lainlet.Watcher.Sender.{Event}
use lainlet.Api.Keys.{Request}
use lainlet.Api.Server.{
  Api, Message, is_error, End, watcher_names, init_watch, watch_loop, handle_watch,
}

-- What the client holds after some messages.
abbrev pub view : Text → List Message → Text
view content [] = content
view content (m ∷ ms) = view m.content ms

-- The content of the last event, if there is one.
abbrev pub last_content : {V : Type 0} → Data V → List (Event V) → Data V
last_content d [] = d
last_content d (e ∷ es) = last_content e.content es

module _ {S V : Type 0} (api : Api S V) (render : Data V → S) (text : S → Text)
    (same : S → S → Bool) (same-text : (s t : S) → same s t ≡ true → text s ≡ text t)
    (IsGood : Data V → Type 0)
    (makes : (s : S) (d : Data V)
      → IsGood d
      → api.make s d ≡ ok (render d, not (same s (render d))))
    (encodes : (s : S) → api.encode s ≡ ok (text s)) where
  watch_loop-view :
      (d : Data V) (es : List (Event V))
      → All (λ e. is_error e.action ≡ false) es
      → All (λ e. IsGood e.content) es
      → (view (text (render d)) (watch_loop api (render d) es).0
          ≡ text (render (last_content d es)))
        × ((watch_loop api (render d) es).1 ≡ End.returned)
  unfolding watch_loop
  watch_loop-view d [] h good = (refl, refl)
  watch_loop-view d (e ∷ es) (h, hs) (g, gs) =
      let (t, u) = watch_loop-view e.content es hs gs in
      rw (h, makes (render d) e.content g, encodes (render e.content))
        (elim (Bool-cases (same (render d) (render e.content))) [
          | inl eq ↦
              rw eq (
                ap (λ x. view x (watch_loop api (render e.content) es).0) (same-text _ _ eq) ∙ t,
                u,
              )
          | inr ne ↦ rw ne (t, u)
        ])

  pub init_watch-eq-ok :
      (s : S) (get : Text → Text → Result (Data V)) (r : Request) (key : Text) (d : Data V)
      → api.is_ban_watcher ≡ false
      → api.key r ≡ ok key
      → contains api.watcher_name watcher_names ≡ true
      → get api.watcher_name key ≡ ok d
      → IsGood d
      → init_watch api s get r
        ≡ ok (
          render d,
          record { id = 1; event = action_name Action.init; content = text (render d) },
        )
  unfolding init_watch action_name
  init_watch-eq-ok s get r key d ban k known found good =
      rw (init_watch, ban, k, known, found, makes s d good, encodes (render d)) refl

  -- An API whose Make renders good data and reports a change exactly if the rendering does not count as
  -- the same, where renderings that do have one encoding, and whose Encode does not fail: while the data
  -- are good, a client that may watch a key ends with the encoding of the data of the last event, or of
  -- what Get returned if there is no event, although events that change nothing are not sent; the
  -- handler returns when the channel is closed, and does not panic.
  pub handle_watch-view :
      (s : S) (get : Text → Text → Result (Data V)) (r : Request) (key : Text) (d : Data V)
      (es : List (Event V))
      → api.is_ban_watcher ≡ false
      → api.key r ≡ ok key
      → contains api.watcher_name watcher_names ≡ true
      → get api.watcher_name key ≡ ok d
      → IsGood d
      → All (λ e. is_error e.action ≡ false) es
      → All (λ e. IsGood e.content) es
      → (view [] (handle_watch api s get r (ok es)).0 ≡ text (render (last_content d es)))
        × ((handle_watch api s get r (ok es)).1 ≡ End.returned)
  unfolding handle_watch
  handle_watch-view s get r key d es ban k known found good h goods =
      rw (handle_watch, init_watch-eq-ok s get r key d ban k known found good)
        (watch_loop-view d es h goods)
