-- ===== src/Auth/Super.antt =====
-- auth/auth.go: which applications count as super applications.
use lainlet.Base.{
  suc, ◌≡◌, refl, ap, ◌≢◌, ◌↔◌, ◌⊎◌, true, List, [], ◌∷◌, arith, if◌then◌else◌, Text, ◌==◌, nat_eq,
  text_eq, is_some, ok, length, codes, has_prefix, has_prefix_self,
}
use lainlet.Base.{GoMap, lookup, keys, keep_keys, lookup-keep_keys}
use lainlet.Watcher.Cacher
use lainlet.Watcher.Cacher.{Data}
use lainlet.Watcher.Loop
use lainlet.Watcher.Loop.{Watcher}
use lainlet.Auth.{Auth, is_super_app}

-- What the cache of a watcher holds.
abbrev pub cached : {T V : Type 0} → Watcher T V → Data V
cached w = w.sender.cacher.entries

-- A key that `Get` looks up, as it is neither empty nor the wildcard.
abbrev pub IsPlainKey : Text → Type 0
IsPlainKey k = (k ≢ []) × (k ≢ codes "*")

pub get-plain :
    {T V : Type 0} (k : Text) (w : Watcher T V)
    → IsPlainKey k
    → Loop.get k w ≡ ok (Cacher.get w.sender.cacher k)
unfolding Loop.get
get-plain k w h = ground arith

pub lookup-get_self :
    {V : Type 0} (c : Cacher.Cacher V) (k : Text) → lookup k (Cacher.get c k) ≡ lookup k c.entries
unfolding Cacher.get lookup
lookup-get_self c k =
    ground (arith, lookup-keep_keys (λ j. has_prefix j k) k c.entries, has_prefix_self k)

-- The super applications whose names start with a name.
abbrev pub starting_with : Text → Auth → List Text
starting_with name a = keys (keep_keys (λ k. has_prefix k name) (cached a.super_apps))

length-keys : {V : Type 0} (m : GoMap V) → length (keys m) ≡ length m
length-keys [] = refl
length-keys ((k, v) ∷ m) = ap suc (length-keys m)

is_super_app-length :
    (a : Auth) (name : Text)
    → a.active ≡ true
    → IsPlainKey name
    → is_super_app a name ≡ (length (Cacher.get a.super_apps.sender.cacher name) == 1)
unfolding is_super_app
is_super_app-length a name act h = rw (act, get-plain name a.super_apps h)

length-get :
    {V : Type 0} (c : Cacher.Cacher V) (name : Text)
    → length (Cacher.get c name) ≡ (
        if is_some (lookup name c.entries)
        then 1
        else length (keys (keep_keys (λ k. has_prefix k name) c.entries)))
unfolding Cacher.get
length-get c name = ground (arith, length-keys (keep_keys (λ k. has_prefix k name) c.entries))

-- While auth is active, a name that is neither empty nor the wildcard counts as a super application
-- exactly if it is listed, or if exactly one listed name starts with it.
pub is_super_app_iff :
    (a : Auth) (name : Text)
    → a.active ≡ true
    → IsPlainKey name
    → (is_super_app a name ≡ true)
      ↔ ((is_some (lookup name (cached a.super_apps)) ≡ true) ⊎ (length (starting_with name a) ≡ 1))
is_super_app_iff a name act h =
    let e = is_super_app-length a name act h in
    let l = length-get a.super_apps.sender.cacher name in ((λ p. ground arith), (λ q. ground arith))
