-- ===== src/Tests/Runs.antt =====
-- Examples for runs of watcher/: the watcher of the configuration, from its first refresh on.
use mathlib.Core.Path.{subst}
use lainlet.Base.{keys, contains-keys}
use lainlet.Base.{
  true, some, contains, ◌∙◌, has_prefix-append_left, ℕ, ◌≡◌, refl, false, none, List, [], ◌∷◌,
  arith, Text, nat_eq, text_eq, Text-discrete, ◌>>=◌, Returns, Returns-eq-ok, All, codes,
  has_prefix, split, ℕ_discrete,
}
use lainlet.Store.{KvPair, Action, Event, found, slash}
use lainlet.Watcher.Sender.Reachable.{new_sender-IsSound}
use lainlet.Watcher.Loop.{Watcher, Loop, refreshing, round, new_watcher, turn}
use lainlet.Watcher.Loop.Turns.{IsWell, IsHandled}
use lainlet.Watcher.Loop.Runs.{made, Run-Returns}
use lainlet.Watcher.Cacher.{get, new_cacher}
use lainlet.Watcher.Sender
use lainlet.Watcher.Sender.{new_sender}
use lainlet.Watcher.Sender.UpToDate.{last_sent, Agrees}
use lainlet.Watcher.Loop.Heard.{IsKeyed, hear, hear-Agrees}
use lainlet.Watcher.Paths.{IsClean}
use lainlet.Watcher.Config.{config_key, config_converter, convert}
use lainlet.Watcher.Config.Mirror.{IsBelow, invert_key-clean}
use lainlet.Watcher.Config.Converted.{IsTidy, convert-IsTidy}
use lainlet.Watcher.Config.Copies.{written, HasNoNamesake, store_after_all}
use lainlet.Watcher.Config.Follow.{follow, IsCopy, run-IsCopy}

abbrev vip : KvPair
vip = record { key = codes "/lain/config/vip"; value = codes "1"; last_index = 7 }

abbrev dns : KvPair
dns = record { key = codes "/lain/config/dns"; value = codes "2"; last_index = 8 }

vip-IsClean : IsClean (codes "vip")
unfolding split ℕ_discrete
vip-IsClean = (((λ e. cc), (λ e. cc), (λ e. cc)), tt)

vip-IsBelow : IsBelow vip
unfolding split ℕ_discrete config_key
vip-IsBelow = (codes "vip", (((λ e. cc), (λ e. cc), (λ e. cc)), tt), refl)

dns-IsBelow : IsBelow dns
unfolding split ℕ_discrete config_key
dns-IsBelow = (codes "dns", (((λ e. cc), (λ e. cc), (λ e. cc)), tt), refl)

abbrev set_dns : Event
set_dns = record { action = Action.set; key = dns.key; modified_index = 8; pairs = dns ∷ [] }

abbrev delete_vip : Event
delete_vip = record { action = Action.delete; key = vip.key; modified_index = 9; pairs = [] }

abbrev events : List (ℕ × Event)
events = (1, set_dns) ∷ (2, delete_vip) ∷ []

dns-unlike : has_prefix dns.key vip.key ≡ false
unfolding has_prefix ℕ_discrete
dns-unlike = refl

vip-HasNoNamesake :
    HasNoNamesake vip.key (λ key. written key (dns ∷ []) (written key (vip ∷ []) none))
vip-HasNoNamesake key here starts = elim (Text-discrete vip.key key) [
  | yes e ↦ ground (arith, e)
  | no ne ↦ elim (Text-discrete dns.key key) [
    | yes e ↦ let other : has_prefix dns.key vip.key ≡ false = dns-unlike in cc (e, starts, other)
    | no ne' ↦ ground (arith, ne, ne')
  ]
]

abbrev fresh : Watcher (Unit {0}) Text
fresh = new_watcher (codes "/lain/config") tt

run-IsCopy_example :
    Returns
      (turn config_converter (λ _. false) refreshing (round (found (vip ∷ [])) none) fresh
        >>= follow (λ _. false) events)
      (IsCopy (λ _. false) (store_after_all events (λ key. written key (vip ∷ []) none)))
unfolding new_watcher
run-IsCopy_example =
    run-IsCopy (λ _. false) (vip ∷ []) events fresh (vip-IsBelow, tt)
      ((dns-IsBelow, tt), (vip-HasNoNamesake, tt)) (new_sender-IsSound none)

config-IsHandled :
    (table : Unit {0}) (pairs : List KvPair)
    → All IsBelow pairs
    → IsHandled (config_converter.convert table pairs).1
unfolding config_converter
config-IsHandled table pairs below =
    let (m, em, tidy) = Returns-eq-ok (convert pairs) IsTidy (convert-IsTidy pairs below) in
    rw em tidy.0

config-IsKeyed :
    (table : Unit {0}) (pairs : List KvPair)
    → All IsBelow pairs
    → IsKeyed IsClean (config_converter.convert table pairs).1
unfolding config_converter
config-IsKeyed table pairs below =
    let (m, em, tidy) = Returns-eq-ok (convert pairs) IsTidy (convert-IsTidy pairs below) in
    rw em (tidy.0, (λ j there. tidy.1 j (ground (arith, contains-keys j m))))

config-grows :
    (table : Unit {0}) (j k : Text)
    → IsClean j
    → IsClean k
    → has_prefix j k ≡ true
    → has_prefix (config_converter.invert_key table j) (config_converter.invert_key table k) ≡ true
unfolding config_converter
config-grows table j k hj hk below =
    rw (invert_key-clean j hj, invert_key-clean k hk)
      (has_prefix-append_left config_key (slash ∷ j) (slash ∷ k)
        ∙ has_prefix-append_left (slash ∷ []) j k
        ∙ below)

-- The watcher once its cache has the address.
abbrev filled : Watcher (Unit {0}) Text
filled = record fresh { sender = new_sender (some ((codes "vip", some (codes "1")) ∷ [])) }

filled-keys : (j : Text) → contains j (keys filled.sender.cacher.entries) ≡ true → IsClean j
unfolding new_sender new_cacher
filled-keys j there = elim (Text-discrete (codes "vip") j) [
  | yes e ↦ subst IsClean e vip-IsClean
  | no ne ↦ absurd (ground (arith, ne))
]

hear-Agrees_example :
    Returns
      (hear config_converter
        (λ _. false)
        (Sender.watch (codes "vip") 0 filled.sender).1
        events
        (record filled { sender = (Sender.watch (codes "vip") 0 filled.sender).0 }))
      (λ w'.
        Agrees
          (last_sent
            (get filled.sender.cacher (codes "vip"))
            (w'.sender.channels (Sender.watch (codes "vip") 0 filled.sender).1).sent)
          w'.sender.cacher
          (codes "vip"))
hear-Agrees_example =
    hear-Agrees config_converter (λ _. false) (All IsBelow) IsClean (codes "vip") 0 events filled
      config-IsKeyed config-grows ((dns-IsBelow, tt), (tt, tt))
      (new_sender-IsSound (some ((codes "vip", some (codes "1")) ∷ []))) filled-keys refl

abbrev first : Loop (Unit {0}) Text
first = record { phase = refreshing; watcher = new_watcher (codes "/lain/config") tt }

Run-Returns_example :
    IsWell first.watcher
    × Returns
        (turn config_converter
          (λ _. false)
          first.phase
          (round (found (vip ∷ [])) none)
          first.watcher)
        (λ l. IsWell l.watcher)
Run-Returns_example =
    Run-Returns config_converter (All IsBelow) config-IsHandled (codes "/lain/config") tt first
      (λ _. false) (round (found (vip ∷ [])) none) made (vip-IsBelow, tt)
