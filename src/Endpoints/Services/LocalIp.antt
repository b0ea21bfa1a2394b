-- ===== src/Endpoints/Services/LocalIp.antt =====
-- endpoints/localspec.go: a request that names no node.
use lainlet.Base.{
  ◌≡◌, refl, true, some, List, [], Text, nat_eq, text_eq, Text-discrete, ok, err, codes,
}
use lainlet.Base.{GoMap}
use lainlet.Auth.{Auth, is_super}
use lainlet.Watcher.Loop
use lainlet.Watcher.Loop.{Watcher}
use lainlet.Watcher.Container.{Info}
use lainlet.Endpoints.{get_remote_addr}
use lainlet.Endpoints.Keys
use lainlet.Endpoints.Sharing.{get_reply_failed}
use lainlet.Endpoints.Services.{localspec_endpoint}
use lainlet.Endpoints.Services.Methods.{get_localspec}

module _ (a : Auth) where
  localspec_key-empty :
      (addr : Text)
      → is_super a addr ≡ ok true
      → Keys.localspec_key a [] (some (some addr)) [] ≡ ok []
  unfolding Keys.localspec_key Keys.super_key get_remote_addr Keys.fix_prefix Text-discrete
  localspec_key-empty addr super = rw super refl

  -- A Get of the local processes that names no node, by a super application, is an error, although
  -- it stands for the node that lainlet runs on: the endpoint has not kept its address.
  pub get_localspec_unset :
      {T : Type 0} (cache : GoMap (List Text)) (w : Watcher T Info) (addr : Text)
      → is_super a addr ≡ ok true
      → get_localspec a cache (λ key. Loop.get key w) [] (some (some addr))
        ≡ (cache, err (codes "empty key"))
  unfolding get_localspec localspec_endpoint Loop.get Text-discrete
  get_localspec_unset cache w addr super =
      get_reply_failed (localspec_endpoint a) cache (λ key. Loop.get key w) [] (some (some addr)) []
        (codes "empty key") (localspec_key-empty addr super) refl
