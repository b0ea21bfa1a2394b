-- ===== src/Api/Server/Get.antt =====
-- api/server.go: the status codes of handleGet.
use lainlet.Base.{
  ℕ, ◌≡◌, refl, sym, ◌∙◌, ◌≢◌, ◌↔◌, inl, inr, Bool, true, false, ◌++◌, arith, if◌then◌else◌, Text,
  nat_eq, text_eq, Result-cases, Result, ok, err, panic, >>=-eq-ok, contains, codes,
}
use lainlet.Watcher.Cacher.{Data}
use lainlet.Api.Keys.{Request}
use lainlet.Api.Server.{Api, watcher_names, answer, respond, handle_get}

answer_iff :
    {S V : Type 0} (api : Api S V) (s : S) (found : Result (Data V)) (body : Text)
    → (answer api s found ≡ ok body) ↔ (
        (items : Data V) × (found ≡ ok items)
        × (new : S) × (changed : Bool) × (api.make s items ≡ ok (new, changed))
        × (api.encode new ≡ ok body))
unfolding answer
answer_iff api s found body = (
  (λ h.
      let (items, e, h') = >>=-eq-ok found _ h in
      let (r, e', h'') = >>=-eq-ok (api.make s items) _ h' in (items, e, r.0, r.1, e', h'')),
  (λ (items, e, new, changed, e', h). rw (e, e') h),
)

module _ {S V : Type 0} (api : Api S V) (s : S) (get : Text → Text → Result (Data V))
    (r : Request) where
  handle_get_refused : {m : Text} → api.key r ≡ err m → handle_get api s get r ≡ ok (400, m)
  unfolding handle_get
  handle_get_refused e = rw (e, handle_get) refl

  handle_get_panics : api.key r ≡ panic → handle_get api s get r ≡ panic
  unfolding handle_get
  handle_get_panics e = rw (e, handle_get) refl

  -- What a query with a key is answered with.
  handle_get_granted :
      {key : Text}
      → api.key r ≡ ok key
      → handle_get api s get r ≡ (
          if contains api.watcher_name watcher_names
          then respond (answer api s (get api.watcher_name key))
          else ok (500, codes "Unkown watcher " ++ api.watcher_name))
  unfolding handle_get
  handle_get_granted e = rw (e, handle_get) refl

  -- A query whose key is granted is answered with 200 or 500, or panics.
  granted_reply :
      (known : Bool) (m : Result Text) (unknown body : Text) (code : ℕ)
      → (if known then respond m else ok (500, unknown)) ≡ ok (code, body)
      → (code ≢ 500)
      → (code ≡ 200) × (known ≡ true) × (m ≡ ok body)
  granted_reply true (ok content) unknown body code h n = ground arith
  granted_reply true (err e) unknown body code h n = ground arith
  granted_reply true panic unknown body code h n = ground arith
  granted_reply false m unknown body code h n = ground arith

-- A query is answered with 200 exactly if its key is granted, its watcher is known, the watcher's Get
-- has data for the key, Make makes a new instance of these data and Encode encodes that new instance,
-- which is the body; and with 400 exactly if `Key` refuses it, with the message of the refusal.
pub handle_get_iff :
    {S V : Type 0} (api : Api S V) (s : S) (get : Text → Text → Result (Data V)) (r : Request)
    (body : Text)
    → ((handle_get api s get r ≡ ok (200, body)) ↔ (
        (key : Text) × (api.key r ≡ ok key)
        × (contains api.watcher_name watcher_names ≡ true)
        × (items : Data V) × (get api.watcher_name key ≡ ok items)
        × (new : S) × (changed : Bool) × (api.make s items ≡ ok (new, changed))
        × (api.encode new ≡ ok body)))
      × ((handle_get api s get r ≡ ok (400, body)) ↔ (api.key r ≡ err body))
handle_get_iff api s get r body = elim (Result-cases (api.key r)) [
  | inl (key, e) ↦
      let g = handle_get_granted api s get r e in
      let reply =
        granted_reply api s get r (contains api.watcher_name watcher_names)
          (answer api s (get api.watcher_name key)) (codes "Unkown watcher " ++ api.watcher_name)
          body in
      (
        (
          (λ h.
              let (_, known, a) = reply 200 (sym g ∙ h) (omega arith) in
              let (items, f, new, changed, made, encoded) =
                (answer_iff api s (get api.watcher_name key) body).0 a in
              (key, e, known, items, f, new, changed, made, encoded)),
          (λ (key', e', known, items, f, new, changed, made, encoded).
              let a =
                (answer_iff api s (get api.watcher_name key') body).1
                  (items, f, new, changed, made, encoded) in
              handle_get_granted api s get r e' ∙ rw (known, a) refl),
        ),
        (
          (λ h. let (n, _, _) = reply 400 (sym g ∙ h) (omega arith) in absurd (omega arith)),
          (λ h. cc),
        ),
      )
  | inr (inl (m, e)) ↦
      let g = handle_get_refused api s get r e in
      (
        ((λ h. ground arith), (λ w. let k = w.1 in cc)),
        ((λ h. ground arith), (λ h. handle_get_refused api s get r h)),
      )
  | inr (inr e) ↦
      let g = handle_get_panics api s get r e in
      (((λ h. cc), (λ w. let k = w.1 in cc)), ((λ h. cc), (λ h. handle_get_refused api s get r h)))
]
