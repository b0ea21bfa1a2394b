-- ===== src/Api/Keys/Rights.antt =====
-- api/v2: which data a request gets the key of, in terms of the rights of its caller.
use mathlib.Core.List.{Memᴰ}
use lainlet.Base.{
  ◌≡◌, ap, ◌∙◌, ◌≢◌, ◌↔◌, ◌⊎◌, inl, inr, Bool, true, false, ◌||◌, none, ◌∷◌, ◌++◌, arith,
  if◌then◌else◌, Text, nat_eq, text_eq, Bool-cases, ok, err, ◌>>=◌, contains, codes, has_prefix,
  List, Option, some, [], not, ◌&&◌, ◌==◌, any, take, split, has_prefix-nil, refl, Text-discrete,
  ℕ_discrete,
}
use lainlet.Base.{lookup}
use lainlet.Watcher.Cacher.{Cacher, get}
use lainlet.Watcher.Cacher.Laws.{lookup-get}
use lainlet.Store.{slash}
use lainlet.Api.Keys.Prefixes.{IsName, head_part, has_prefix-head_part, fix_prefix-name}
use lainlet.Auth.{Auth, is_super, is_local, pass}
use lainlet.Auth.Pass.{IsHost, HasNoNil, may_see, pass_lem}
use lainlet.Api.Keys.{
  Request, get_string, is_secret, star, config_key, super_only, app_key, own_app, no_permission,
  secret_keys,
}

-- What the request asks the configuration for.
abbrev pub target_of : Request → Text
target_of r = get_string r (codes "target") star

any-false_iff {ℓ} :
    {A : Type ℓ} (p : A → Bool) (xs : List A)
    → (any p xs ≡ false) ↔ ((x : A) → Memᴰ x xs → p x ≡ false)
any-false_iff p [] = ((λ h x m. elim m [ ]), (λ h. refl))
any-false_iff p (x ∷ xs) = (
  (λ h y m. elim m [
    | Memᴰ.head e ↦ ground (arith, ap p e)
    | Memᴰ.tail m' ↦ (any-false_iff p xs).0 (ground arith) y m'
  ]),
  (λ h.
      let first = h x (Memᴰ.head refl) in
      let rest = (any-false_iff p xs).1 (λ y m. h y (Memᴰ.tail m)) in ground arith),
)

-- A text that starts with no secret key.
abbrev pub IsOpen : Text → Type 0
IsOpen target = (sk : Text) → Memᴰ sk secret_keys → has_prefix target sk ≡ false

is_secret_iff : (target : Text) → (is_secret target ≡ false) ↔ IsOpen target
unfolding is_secret
is_secret_iff target = any-false_iff (λ sk. has_prefix target sk) secret_keys

-- A request for the configuration is granted a key exactly if the key is the target that it asks for,
-- and either the target starts with no secret key or the caller is a super application.
pub config_key_iff :
    (a : Auth) (r : Request) (key : Text)
    → (config_key a r ≡ ok key)
      ↔ ((key ≡ target_of r) × (IsOpen (target_of r) ⊎ (is_super a r.remote_addr ≡ ok true)))
unfolding config_key super_only
config_key_iff a r key = elim (Bool-cases (is_secret (target_of r))) [
  | inl secret ↦ (
    (λ h. (ground arith, inr (ground arith))),
    (λ (e, right). elim right [
      | inl plain ↦ let k = (is_secret_iff (target_of r)).1 plain in cc
      | inr super ↦ ground arith
    ]),
  )
  | inr plain ↦ (
    (λ h. (ground arith, inl ((is_secret_iff (target_of r)).0 plain))),
    (λ (e, right). ground arith),
  )
]

has_prefix-take : (s : Text) → has_prefix s (take 1 s) ≡ true
unfolding has_prefix
has_prefix-take [] = refl
has_prefix-take (c ∷ s) = ground (arith, has_prefix-nil s)

-- A first letter is no secret key, the star aside.
first_letters : any (λ sk. not (sk == star) && is_secret (take 1 sk)) secret_keys ≡ false
unfolding is_secret has_prefix Text-discrete ℕ_discrete
first_letters = refl

-- The first letter of a secret key, the star aside, is a target that everybody is granted, and the data
-- that the cache then returns hold the secret key with its value, unless the letter is itself a key of
-- the configuration.
pub config_key_leak :
    (a : Auth) (r : Request) (c : Cacher Text) (sk : Text)
    → Memᴰ sk secret_keys
    → sk ≢ star
    → target_of r ≡ take 1 sk
    → lookup (target_of r) c.entries ≡ none
    → (config_key a r ≡ ok (target_of r)) × (lookup sk (get c (target_of r)) ≡ lookup sk c.entries)
unfolding config_key
config_key_leak a r c sk m other letter missing =
    let plain =
      (any-false_iff (λ (t : Text). not (t == star) && is_secret (take 1 t)) secret_keys).0
        first_letters sk m in
    let below : has_prefix sk (target_of r) ≡ true = rw letter (has_prefix-take sk) in
    let open_letter : is_secret (target_of r) ≡ false = rw letter (ground arith) in
    (ground arith, ground (arith, lookup-get c (target_of r) sk))

-- The answer once `Pass` is known.
app_key_of_pass :
    (a : Auth) (r : Request) (allowed : Bool)
    → pass a r.remote_addr (get_string r (codes "appname") star) ≡ ok allowed
    → app_key a r ≡ own_app a r (get_string r (codes "appname") star) allowed
unfolding app_key
app_key_of_pass a r allowed p = ap (λ m. m >>= own_app a r (get_string r (codes "appname") star)) p

-- What the cache returns for the name of an application with a slash behind it.
get-named :
    {V : Type 0} (c : Cacher V) (name j : Text) (v : Option V)
    → IsName name
    → lookup (name ++ slash ∷ []) c.entries ≡ none
    → (lookup j (get c (name ++ slash ∷ [])) ≡ some v)
      ↔ ((lookup j c.entries ≡ some v) × (head_part (split j slash) ≡ some name))
get-named c name j v simple missing =
    let (f, g) = has_prefix-head_part name j simple.1 in
    (
      (λ h. (
        ground (arith, lookup-get c (name ++ slash ∷ []) j),
        f (ground (arith, lookup-get c (name ++ slash ∷ []) j)),
      )),
      (λ (h, e). let k = g e in ground (arith, lookup-get c (name ++ slash ∷ []) j)),
    )

-- While auth is active, for a caller `host:port` as `pass_lem` has it, a request that names an
-- application by a name without a slash is granted the key `name/` exactly if the host is local or may
-- see the application, and is refused otherwise; it does not panic. The data that a cache without that
-- very key returns for `name/` are its entries whose path has the name as its first part and another
-- part behind it: those of the application, and of no other one whose name starts alike.
pub app_key_named :
    {V : Type 0} (a : Auth) (r : Request) (host port name : Text) (c : Cacher V)
    → a.active ≡ true
    → r.remote_addr ≡ host ++ b':' ∷ port
    → contains b':' port ≡ false
    → IsHost host
    → HasNoNil a host
    → get_string r (codes "appname") star ≡ name
    → name ≢ star
    → IsName name
    → lookup (name ++ slash ∷ []) c.entries ≡ none
    → (app_key a r ≡ (
        if is_local a host || may_see a host name
        then ok (name ++ slash ∷ [])
        else err no_permission))
      × ((j : Text) (v : Option V)
          → (lookup j (get c (name ++ slash ∷ [])) ≡ some v)
            ↔ ((lookup j c.entries ≡ some v) × (head_part (split j slash) ≡ some name)))
unfolding app_key own_app
app_key_named a r host port name c act addr digits h k asked named simple missing =
    let p = ap (λ x. pass a x name) addr ∙ pass_lem a host port name act digits h k in
    let q =
      app_key_of_pass a r (is_local a host || may_see a host name)
        (ap (pass a r.remote_addr) asked ∙ p) in
    (
      q
          ∙ ap (λ n. own_app a r n (is_local a host || may_see a host name)) asked
          ∙ ground (arith, fix_prefix-name name simple),
      (λ j v. get-named c name j v simple missing),
    )
