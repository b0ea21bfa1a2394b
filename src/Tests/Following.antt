-- ===== src/Tests/Following.antt =====
-- Examples for watcher/sender.go: a client that takes its events.
use lainlet.Base.{
  ℕ, refl, Bool, false, some, List, [], ◌∷◌, arith, Text, nat_eq, text_eq, Returns, codes,
}
use lainlet.Base.{insert, lookup-insert}
use lainlet.Store.{Action}
use lainlet.Watcher.Cacher.{Data, get, new_cacher}
use lainlet.Watcher.Sender.{Sender, new_sender, watch}
use lainlet.Watcher.Sender.Reachable.{new_sender-IsSound}
use lainlet.Watcher.Sender.UpToDate.{last_sent, Agrees, DiffersAt}
use lainlet.Watcher.Sender.Following.{Round, follow, TellsAll, last_cacher, watch-follow}

abbrev config : Data Text
config = (codes "vip", some (codes "10.0.0.1")) ∷ (codes "domain", some (codes "lain.local")) ∷ []

abbrev start : Sender Text
start = new_sender (some config)

-- The cache gets another value under one key.
abbrev write : Text → Text → Data Text → Round Text
write key value m = record {
  cacher = record { entries = insert key (some value) m };
  changed = key ∷ [];
  action = Action.set;
}

write-DiffersAt :
    (key value : Text) (m : Data Text)
    → DiffersAt (key ∷ []) (record { entries = m }) (write key value m).cacher
write-DiffersAt key value m j missing = ground (arith, missing, lookup-insert key j (some value) m)

abbrev second : Data Text
second = insert (codes "vips") (some (codes "2")) config

-- A change that the client of "vip" is told, and one that it is not.
abbrev rounds : List (Round Text)
rounds =
    write (codes "vips") (codes "2") config ∷ write (codes "dns") (codes "10.0.0.3") second ∷ []

rounds-TellsAll : TellsAll start.cacher rounds
unfolding new_sender new_cacher
rounds-TellsAll = (
  write-DiffersAt (codes "vips") (codes "2") config,
  (write-DiffersAt (codes "dns") (codes "10.0.0.3") second, tt),
)

abbrev no_one_done : ℕ → Bool
no_one_done c = false

watch-follow_example :
    Returns
      (follow no_one_done (watch (codes "vip") 0 start).1 rounds (watch (codes "vip") 0 start).0)
      (λ u.
        Agrees
          (last_sent
            (get start.cacher (codes "vip"))
            (u.channels (watch (codes "vip") 0 start).1).sent)
          (last_cacher start.cacher rounds)
          (codes "vip"))
watch-follow_example =
    watch-follow no_one_done (codes "vip") 0 start rounds (new_sender-IsSound (some config)) refl
      rounds-TellsAll
