-- ===== src/Tests/Watchers.antt =====
-- Examples for watcher/: a configuration watcher with one client.
use mathlib.Core.List.{Memᴰ}
use lainlet.Base.{
  ℕ, ◌≡◌, refl, inl, Bool, false, none, some, [], ◌∷◌, if◌then◌else◌, Text, nat_eq, text_eq, ok,
  err, Returns, codes, has_prefix, split, ℕ_discrete,
}
use lainlet.Base.{lookup, insert}
use lainlet.Store.{Action, Event}
use lainlet.Watcher.Cacher.{Data, Cacher}
use lainlet.Watcher.Sender.{Receiver, Sender, new_sender, broadcast, watch}
use lainlet.Watcher.Sender.Safety.{IsFree, IsOrderly, IsSound}
use lainlet.Watcher.Sender.Reachable.{
  Reach, watches, here, next, Reach-IsSound, new_sender-IsSound, reachable-Returns,
}
use lainlet.Watcher.Sender.Delivery.{delivered, broadcast-delivered}
use lainlet.Watcher.Loop.{Converter, Watcher, new_watcher, on_event, watching, closed}
use lainlet.Watcher.Loop.Events.{entry, IsUpdated, IsMonotone, on_event-update, on_event_delete}
use lainlet.Watcher.Loop.{round, tree_pairs, turn}
use lainlet.Watcher.Loop.Resume.{then_turn, IsTold, refreshed, turn_resumes}
use lainlet.Store.{found}
use lainlet.Base.{keys}
use lainlet.Watcher.Paths.{IsClean, key_below}
use lainlet.Watcher.Config.Mirror.{IsBelow, latest, convert-latest}
use lainlet.Watcher.Config.{invert_key, convert, config_key, config_converter}

abbrev config : Data Text
config = (codes "vip", some (codes "10.0.0.1")) ∷ (codes "domain", some (codes "lain.local")) ∷ []

-- A sender with a client that watches "vip".
abbrev one_client : Sender Text
one_client = (watch (codes "vip") 0 (new_sender (some config))).0

abbrev no_one_done : ℕ → Bool
no_one_done c = false

one_client-Reach : Reach (new_sender (some config)) one_client
one_client-Reach = next here (watches (codes "vip") 0 (new_sender (some config)))

one_client-IsSound : IsSound one_client
one_client-IsSound = Reach-IsSound (new_sender-IsSound (some config)) one_client-Reach

reachable-Returns_example :
    Returns
      (broadcast no_one_done (codes "vip" ∷ []) Action.set one_client)
      (λ x. IsSound x.0 × (x.0.cacher ≡ one_client.cacher))
    × ((c : ℕ) → IsOrderly (one_client.channels c))
reachable-Returns_example =
    reachable-Returns (some config) one_client no_one_done (codes "vip" ∷ []) Action.set
      one_client-Reach

broadcast-delivered_example :
    Returns (broadcast no_one_done (codes "vip" ∷ []) Action.set one_client) (λ x.
      ((r : Receiver)
        → Memᴰ (some r) one_client.receivers
        → x.0.channels r.ch
          ≡ delivered no_one_done one_client.cacher
              (codes "vip" ∷ [])
              Action.set
              r
              (one_client.channels r.ch))
      × ((c : ℕ) → IsFree c one_client.receivers → x.0.channels c ≡ one_client.channels c))
broadcast-delivered_example =
    broadcast-delivered no_one_done (codes "vip" ∷ []) Action.set one_client one_client-IsSound

abbrev cacher : Cacher Text
cacher = record { entries = config }

-- A configuration watcher with that client.
abbrev watcher : Watcher (Unit {0}) Text
watcher = record (new_watcher (codes "/lain/config") tt) { sender = one_client }

abbrev set_vip : Event
set_vip = record {
  action = Action.set;
  key = codes "/lain/config/vip";
  modified_index = 7;
  pairs = record { key = codes "/lain/config/vip"; value = codes "10.0.0.2"; last_index = 7 } ∷ [];
}

abbrev new_vip : Data Text
new_vip = (codes "vip", some (codes "10.0.0.2")) ∷ []

converts : config_converter.convert tt set_vip.pairs ≡ (tt, ok new_vip)
unfolding config_converter convert config_key key_below lookup insert
converts = refl

on_event-update_example :
    Returns
      (on_event config_converter no_one_done 3 set_vip watcher)
      (IsUpdated config_converter no_one_done set_vip new_vip watcher)
on_event-update_example =
    on_event-update config_converter no_one_done 3 set_vip watcher tt new_vip (inl refl) converts
      (unfold lookup in (refl, tt)) one_client-IsSound

abbrev delete_vip : Event
delete_vip = record {
  action = Action.delete;
  key = codes "/lain/config/vip";
  modified_index = 8;
  pairs = [];
}

-- A converter that always fails, and whose store keys are the keys.
abbrev failing : Converter (Unit {0}) Text
failing = record {
  convert = λ table pairs. (table, err (codes "unmarshal"));
  invert_key = λ table key. key;
}

watcher-IsMonotone : IsMonotone failing no_one_done watcher
watcher-IsMonotone j k _ _ h = h

on_event_delete_example : Returns (on_event failing no_one_done 3 delete_vip watcher) (λ w'.
    ((j : Text)
      → entry failing no_one_done w' j ≡ (
          if has_prefix j (codes "/lain/config/vip")
          then none
          else entry failing no_one_done watcher j))
    × IsSound w'.sender
    × (w'.last_index ≡ 8))
on_event_delete_example =
    on_event_delete failing no_one_done 3 delete_vip watcher refl one_client-IsSound
      watcher-IsMonotone

vip-IsClean : IsClean (codes "vip")
unfolding split ℕ_discrete
vip-IsClean = (((λ e. cc), (λ e. cc), (λ e. cc)), tt)

vip-IsBelow :
    IsBelow (record { key = codes "/lain/config/vip"; value = codes "10.0.0.2"; last_index = 7 })
unfolding config_key
vip-IsBelow = (codes "vip", vip-IsClean, refl)

convert-latest_example :
    Returns
      (convert set_vip.pairs)
      (λ m. (k : Text) → IsClean k → lookup k m ≡ latest (invert_key k) set_vip.pairs none)
convert-latest_example = convert-latest set_vip.pairs (vip-IsBelow, tt)

found_pairs : tree_pairs (found set_vip.pairs) ≡ ok set_vip.pairs
unfolding tree_pairs
found_pairs = refl

turn_resumes_example :
    Returns
      (then_turn config_converter no_one_done
        (round (found set_vip.pairs) none)
        (turn config_converter no_one_done watching closed watcher))
      (λ l.
        IsTold config_converter no_one_done
          (keys new_vip)
          (refreshed config_converter no_one_done tt new_vip watcher)
          l.watcher
        × (l.watcher.broadcast_after_refresh ≡ false)
        × (l.phase ≡ watching))
turn_resumes_example =
    turn_resumes config_converter no_one_done (found set_vip.pairs) none watcher set_vip.pairs tt
      new_vip found_pairs converts one_client-IsSound
