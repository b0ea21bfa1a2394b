-- ===== src/Client.antt =====
-- client/client.go: the client of the HTTP interface, less the goroutine that reads an event stream
-- (Wire). net/url, net/http and the reading of a body are parameters; a duration is an int64, as a bit
-- pattern below 2 ^ 64.
use lainlet.Base.{
  ℕ, ◌^◌, Bool, true, false, List, [], ◌∷◌, leb, if◌then◌else◌, Text, nat_eq, text_eq, Result, ok,
  ◌>>=◌, codes,
}
use lainlet.Base.{GoMap, insert}
use lainlet.Wire.{Response, watch_body}

-- url.URL, the parts that Do writes, and the others as one text
pub record Url : Type 0 where
  pub scheme : Text
  pub host : Text
  pub path : Text
  pub raw_query : Text

-- What Do uses of net/url and net/http: a response is its body.
pub record Http (Body : Type 0) : Type 0 where
  pub parse : Text → Result Url
  pub query : Text → GoMap (List Text)
  pub encode : GoMap (List Text) → Text
  pub render : Url → Text
  pub get : (timeout : ℕ) → Text → Result Body

-- Client
pub record Client : Type 0 where
  pub addr : Text

-- New
unfoldable pub new_client : Text → Client
new_client addr = record { addr = addr }

-- The URL of a request
unfoldable pub request_url : {Body : Type 0} → Http Body → Client → Url → Bool → Url
request_url http c u watching =
    let q =
      insert (codes "watch") (codes (if watching then "1" else "0") ∷ [])
        (http.query u.raw_query) in
    record u { scheme = codes "http"; host = c.addr; raw_query = http.encode q }

-- Do
unfoldable pub send_request :
    {Body : Type 0}
    → Http Body
    → Client
    → (uri : Text) → (timeout : ℕ) → (watching : Bool) → Result Body
unfolding request_url
send_request http c uri timeout watching =
    http.parse uri >>= (λ u. http.get timeout (http.render (request_url http c u watching)))

-- Get; `read_all` is ioutil.ReadAll.
unfoldable pub get :
    {Body : Type 0}
    → Http Body
    → (Body → Result Text)
    → Client
    → (uri : Text) → (timeout : ℕ) → Result Text
unfolding send_request
get http read_all c uri timeout =
    send_request http c uri (if leb (2 ^ 63) timeout then 0 else timeout) false >>= read_all

-- Watch: what its channel yields until it is closed; `text_of` is what can be read of a body until it
-- ends.
unfoldable pub watch :
    {Body : Type 0} → Http Body → (Body → Text) → Client → (uri : Text) → Result (List Response)
unfolding send_request
watch http text_of c uri =
    send_request http c uri 0 true >>= (λ body. ok (watch_body (text_of body)))
