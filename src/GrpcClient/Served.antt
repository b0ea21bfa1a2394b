-- ===== src/GrpcClient/Served.antt =====
-- endpoints/*.go and grpcclient/client.go: a stream from the events that a service hears to what its
-- client takes with `Next`.
use lainlet.Base.{
  ℕ, ◌≡◌, refl, sym, ap, ◌∙◌, inl, inr, true, some, List, [], ◌∷◌, ◌++◌, append-nil, if◌then◌else◌,
  Text, ◌==◌, nat_eq, text_eq, Bool-cases, All,
}
use lainlet.Base.{GoMap, lookup}
use lainlet.Watcher.Cacher.{Data}
use lainlet.Endpoints.{Endpoint, Call, serve}
use lainlet.Endpoints.Sharing.{view_of, last_heard, IsAlone, serve-view, IsMade}
use lainlet.GrpcClient.{Stream}
use lainlet.GrpcClient.Turns.{System, Reach, delivered, in_flight}
use lainlet.GrpcClient.Delivery.{Reach-delivered}

-- The replies that one of the streams is sent.
abbrev pub replies_to : {R : Type 0} → ℕ → List (ℕ × R) → List R
replies_to i [] = []
replies_to i ((j, r) ∷ log) = if j == i then r ∷ replies_to i log else replies_to i log

-- What a client that keeps the last reply holds.
abbrev pub last_of : {R : Type 0} → R → List R → R
last_of r [] = r
last_of r (x ∷ xs) = last_of x xs

view_of-last_of :
    {R : Type 0} (i : ℕ) (r : R) (log : List (ℕ × R))
    → last_of r (replies_to i log) ≡ view_of i r log
view_of-last_of i r [] = refl
view_of-last_of i r ((j, x) ∷ log) = elim (Bool-cases (j == i)) [
  | inl own ↦ rw own (view_of-last_of i x log)
  | inr other ↦ rw other (view_of-last_of i r log)
]

-- The whole way of a change through a service that keeps its replies in a cache and counts each reply as
-- equal to itself, and whose `make` makes replies, and neither fails nor panics, on the data of all the
-- calls, of which none is an ERROR: a stream that has its key for itself, and sends first the reply for
-- some data that the cache has for the key, and a client that takes its replies with Next, in whatever
-- turns. Once nothing is on its way any more, the last reply that Next returned counts as equal to the one
-- for the data of the last event for the key, or for those data if there is none, whatever happened under
-- other keys.
pub serve-Reach :
    {V R : Type 0} (ed : Endpoint V R) (reply : Data V → R)
    → ((d : Data V) → ed.same (reply d) (reply d) ≡ true)
    → ed.is_cached ≡ true
    → (calls : List (Call V)) (cache : GoMap R) (i : ℕ) (key : Text) (d : Data V)
      (stream : Stream R) {s : System R}
    → All (IsAlone i key) calls
    → All (IsMade ed reply) calls
    → lookup key cache ≡ some (reply d)
    → stream.replies ≡ reply d ∷ replies_to i (serve ed cache calls).1
    → Reach stream s
    → in_flight s ≡ []
    → ed.same (last_of (reply d) (delivered s.results)) (reply (last_heard key d calls)) ≡ true
serve-Reach ed reply reflexive shared calls cache i key d stream {s} alone goods found whole run
      empty =
    let (all, _, _) = Reach-delivered stream run in
    let got : delivered s.results ≡ reply d ∷ replies_to i (serve ed cache calls).1 =
      sym (append-nil _) ∙ ap (λ x. delivered s.results ++ x) (sym empty) ∙ all ∙ whole in
    rw (got, view_of-last_of i (reply d) (serve ed cache calls).1)
      (serve-view ed reply reflexive shared calls cache i key d (reply d) alone goods found
        (reflexive d))
