-- ===== src/Auth/Convert/Owners.antt =====
-- auth/auth.go: which addresses the conversion of the pod groups writes.
use lainlet.Base.{
  ℕ, ◌≡◌, refl, ap, ◌∙◌, ◌⊎◌, inl, inr, Bool, true, false, Option, none, some, List, [], ◌∷◌, ◌++◌,
  arith, Text, ◌==◌, nat_eq, text_eq, Bool-cases, ok, Returns, Returns-eq-ok, contains,
}
use lainlet.Base.{lookup, insert, IsMap, lookup-insert, insert-IsMap}
use lainlet.Base.{any-append}
use lainlet.Spec.{Container, Pod, PodGroup}
use lainlet.Store.{KvPair, Action, Event}
use lainlet.Watcher.Cacher.{Data}
use lainlet.Watcher.Sender.Safety.{IsSound}
use lainlet.Watcher.Loop.{Watcher, on_event}
use lainlet.Watcher.Loop.Events.{overlaid, IsUpdated, on_event-update}
use lainlet.Auth.{ContainerInfo, Table}
use lainlet.Auth.Convert.{
  own_containers, own_pods, podgroup_convert_from, podgroup_convert, podgroup_converter,
}

-- The addresses of the containers of a pod group.
abbrev pub container_ips : List Container → List Text
container_ips [] = []
container_ips (c ∷ cs) = c.container_ip ∷ container_ips cs

abbrev pub pod_ips : List Pod → List Text
pod_ips [] = []
pod_ips (pod ∷ pods) = container_ips pod.containers ++ pod_ips pods

abbrev State : Type 0
State = Data ContainerInfo × Table

-- The application that an entry names.
abbrev pub app_of : Option (Option ContainerInfo) → Option Text
app_of (some (some ci)) = some ci.app_name
app_of _ = none

module _ (store_key : Text) (pg : PodGroup) where
  -- The entry that the conversion makes for a container.
  abbrev owner : Container → Option ContainerInfo
  owner c = some (record { app_name = pg.spec.namespace; proc = pg.spec.name; container_id = c.id })

  abbrev put_owner : Container → State → State
  put_owner c s = (insert c.container_ip (owner c) s.0, insert c.container_ip store_key s.1)

  -- Among the listed addresses the entry names the application, and elsewhere it is the old one.
  abbrev Owned : List Text → State → State → Type 0
  Owned ips s s' =
      (ip : Text)
      → (contains ip ips ≡ true → app_of (lookup ip s'.0) ≡ some pg.spec.namespace)
        × (contains ip ips ≡ false → lookup ip s'.0 ≡ lookup ip s.0)

  own_containers-Owned :
      (cs : List Container) (s : State)
      → Owned (container_ips cs) s (own_containers store_key pg cs s)
        × (IsMap s.0 → IsMap (own_containers store_key pg cs s).0)
  unfolding own_containers
  own_containers-Owned [] s = ((λ ip. ((λ h. cc), (λ h. refl))), (λ h. h))
  own_containers-Owned (c ∷ cs) (ret, table) =
      let (owned, distinct) = own_containers-Owned cs (put_owner c (ret, table)) in
      (
        (λ ip.
            let here = lookup-insert c.container_ip ip (owner c) ret in
            let later = owned ip in
            elim (Bool-cases (contains ip (container_ips cs))) [
              | inl again ↦ ((λ h. later.0 again), (λ h. ground arith))
              | inr last ↦
                  ((λ h. rw (later.1 last) (ground arith)), (λ h. rw (later.1 last) (ground arith)))
            ]),
        (λ h. distinct (insert-IsMap c.container_ip (owner c) ret h)),
      )

  own_pods-Owned :
      (pods : List Pod) (s : State)
      → Owned (pod_ips pods) s (own_pods store_key pg pods s)
        × (IsMap s.0 → IsMap (own_pods store_key pg pods s).0)
  unfolding own_pods
  own_pods-Owned [] s = ((λ ip. ((λ h. cc), (λ h. refl))), (λ h. h))
  own_pods-Owned (pod ∷ pods) s =
      let (owned, distinct) = own_containers-Owned pod.containers s in
      let (owned', distinct') =
        own_pods-Owned pods (own_containers store_key pg pod.containers s) in
      (
        (λ ip.
            let split_at =
              any-append (λ x. x == ip) (container_ips pod.containers) (pod_ips pods) in
            elim (Bool-cases (contains ip (pod_ips pods))) [
              | inl again ↦ ((λ h. (owned' ip).0 again), (λ h. ground arith))
              | inr last ↦ (
                (λ h. rw ((owned' ip).1 last) ((owned ip).0 (ground arith))),
                (λ h. (owned' ip).1 last ∙ (owned ip).1 (ground arith)),
              )
            ]),
        (λ h. distinct' (distinct h)),
      )

podgroup_convert_single :
    (unmarshal : Text → Option PodGroup) (table : Table) (kv : KvPair) (pg : PodGroup)
    (pairs : List KvPair)
    → pairs ≡ kv ∷ []
    → unmarshal kv.value ≡ some pg
    → (podgroup_converter unmarshal).convert table pairs
      ≡ ((own_pods kv.key pg pg.pods ([], table)).1, ok (own_pods kv.key pg pg.pods ([], table)).0)
unfolding podgroup_converter podgroup_convert podgroup_convert_from
podgroup_convert_single unmarshal table kv pg pairs single decoded =
    rw single (rw (decoded, podgroup_convert_from))

overlaid-app_of :
    (new old got : Option (Option ContainerInfo)) {app : Text}
    → got ≡ overlaid new old
    → app_of new ≡ some app
    → app_of got ≡ some app
overlaid-app_of (some (some ci)) old got e h = rw e h
overlaid-app_of (some none) old got e h = cc
overlaid-app_of none old got e h = cc

-- From a sound sender, after a SET or UPDATE event with one pod group, which decodes, the address of
-- each of its containers leads to its application; every other address leads where it did before,
-- also an address that a container of the same pod group had until then.
pub podgroup_update :
    (unmarshal : Text → Option PodGroup) (done : ℕ → Bool) (now : ℕ) (e : Event)
    (w : Watcher Table ContainerInfo) (kv : KvPair) (pg : PodGroup)
    → (e.action ≡ Action.set) ⊎ (e.action ≡ Action.update)
    → e.pairs ≡ kv ∷ []
    → unmarshal kv.value ≡ some pg
    → IsSound w.sender
    → Returns (on_event (podgroup_converter unmarshal) done now e w) (λ w'.
      (ip : Text)
      → (contains ip (pod_ips pg.pods) ≡ true
          → app_of (lookup ip w'.sender.cacher.entries) ≡ some pg.spec.namespace)
        × (contains ip (pod_ips pg.pods) ≡ false
            → lookup ip w'.sender.cacher.entries ≡ lookup ip w.sender.cacher.entries))
unfolding lookup
podgroup_update unmarshal done now e w kv pg act single decoded v =
    let x = own_pods kv.key pg pg.pods ([], w.table) in
    let (owned, distinct) = own_pods-Owned kv.key pg pg.pods ([], w.table) in
    let (w', returned, u) =
      Returns-eq-ok _
        (IsUpdated (podgroup_converter unmarshal) done e x.0 (record w { table = x.1 }))
        (on_event-update (podgroup_converter unmarshal) done now e w x.1 x.0 act
          (podgroup_convert_single unmarshal w.table kv pg e.pairs single decoded) (distinct tt)
          v) in
    rw returned (λ ip. (
      (λ h. overlaid-app_of _ _ _ (u.0 ip) ((owned ip).0 h)),
      (λ h. u.0 ip ∙ ap (λ o. overlaid o (lookup ip w.sender.cacher.entries)) ((owned ip).1 h)),
    ))
