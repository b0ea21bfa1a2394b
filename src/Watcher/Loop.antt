-- ===== src/Watcher/Loop.antt =====
-- watcher/watcher.go: the base watcher, which follows one key of the store, converts what it reads,
-- keeps the result in the cache and broadcasts the changed keys.
pub mod Events
pub mod Resume
pub mod Distinct
pub mod Turns
pub mod Runs
pub mod Told
pub mod Heard
use lainlet.Base.{
  ℕ, Bool, true, false, Option, none, some, List, [], ◌∷◌, ◌++◌, if◌then◌else◌, Text, ◌==◌, nat_eq,
  text_eq, Result, ok, err, panic, ◌>>=◌, length, codes, has_prefix,
}
use lainlet.Base.{keys}
use lainlet.Store.{Action, KvPair, Event, Answer, found, key_not_found, failure}
use lainlet.Watcher.Cacher
use lainlet.Watcher.Cacher.{Data, Cacher}
use lainlet.Watcher.Sender
use lainlet.Watcher.Sender.{Sender}

-- ConvertFunc and ckey2skey, over a table of their own that both may read and the first may write.
pub record Converter (T V : Type 0) : Type 0 where
  pub convert : T → List KvPair → T × Result (Data V)
  pub invert_key : T → Text → Text

-- Status, less the two counts, which are computed when it is asked for.
pub record Status : Type 0 where
  pub update_time : ℕ
  pub last_event : Option Event

-- BaseWatcher, with the variables of the loop `watchStore` that outlive one round.
pub record Watcher (T V : Type 0) : Type 0 where
  pub key : Text
  pub table : T
  pub sender : Sender V
  pub status : Status
  pub pending : List Text  -- keys
  pub last_index : ℕ
  pub broadcast_after_refresh : Bool

-- New, before its goroutine runs
unfoldable pub new_watcher : {T V : Type 0} → Text → T → Watcher T V
new_watcher key table = record {
  key = key;
  table = table;
  sender = Sender.new_sender none;
  status = record { update_time = 0; last_event = none };
  pending = [];
  last_index = 0;
  broadcast_after_refresh = false;
}

-- A write to the cache that the sender holds.
abbrev pub with_cacher : {T V : Type 0} → Watcher T V → Cacher V → Watcher T V
with_cacher w c = record w { sender = record w.sender { cacher = c } }

-- The pairs that `refresh` converts: none, if the key does not exist; otherwise the error.
unfoldable pub tree_pairs : Answer (List KvPair) → Result (List KvPair)
tree_pairs (found pairs) = ok pairs
tree_pairs key_not_found = ok []
tree_pairs (failure m) = err m

module _ {V : Type 0} where
  -- The loop that puts the converted data, with the keys in its order.
  unfoldable pub put_all : Cacher V → Data V → Cacher V
  put_all c [] = c
  put_all c ((k, v) ∷ m) = put_all (Cacher.put c k v) m

  -- The loop of the DELETE case over the keys that the cache had.
  unfoldable pub delete_all : (Text → Text) → Text → Cacher V → List Text → Cacher V × List Text
  delete_all ckey2skey gone c [] = (c, [])
  delete_all ckey2skey gone c (k ∷ ks) =
      let hit = has_prefix (ckey2skey k) gone in
      let c' = if hit then (Cacher.delete_key c k true).0 else c in
      let (after, deleted) = delete_all ckey2skey gone c' ks in
      (after, (if hit then k ∷ deleted else deleted))

module _ {T V : Type 0} (cv : Converter T V) where
  -- What `refresh` does with the outcome of the conversion.
  unfoldable pub reset_with : Watcher T V → T × Result (Data V) → Watcher T V × Result (Unit {0})
  reset_with w (table, err m) = (record w { table = table }, err m)
  reset_with w (table, panic) = (record w { table = table }, panic)
  reset_with w (table, ok m) =
      (with_cacher (record w { table = table }) (Cacher.reset w.sender.cacher m), ok tt)

  -- refresh: the watcher, and the outcome of the call
  unfoldable pub refresh : Answer (List KvPair) → Watcher T V → Watcher T V × Result (Unit {0})
  unfolding tree_pairs reset_with
  refresh tree w = elim (tree_pairs tree) [
    | err m ↦ (w, err m)
    | panic ↦ (w, panic)
    | ok pairs ↦ reset_with w (cv.convert w.table pairs)
  ]

  -- w.Broadcast(keys, action)
  unfoldable pub broadcast : (ℕ → Bool) → List Text → Action → Watcher T V → Result (Watcher T V)
  broadcast done keys action w = do
    (s, clear) ← Sender.broadcast done keys action w.sender
    ok (record w { sender = s })

  -- SET and UPDATE after the conversion: put all, note the index, broadcast the keys.
  unfoldable pub apply_update : (ℕ → Bool) → Event → Data V → Watcher T V → Result (Watcher T V)
  unfolding put_all
  apply_update done e m w = do
    let w' = with_cacher (record w { last_index = e.modified_index }) (put_all w.sender.cacher m)
    w'' ← broadcast done (w.pending ++ keys m) e.action w'
    ok (record w'' { pending = [] })

  -- What follows the conversion, which has written the table and has its outcome. An error is logged
  -- and ends the case.
  unfoldable pub after_convert :
      (ℕ → Bool) → Event → Watcher T V → T × Result (Data V) → Result (Watcher T V)
  after_convert done e w (table, panic) = panic
  after_convert done e w (table, err m) = ok (record w { table = table })
  after_convert done e w (table, ok m) = apply_update done e m (record w { table = table })

  -- The case of SET and UPDATE.
  unfoldable pub on_update : (ℕ → Bool) → Event → Watcher T V → Result (Watcher T V)
  unfolding after_convert
  on_update done e w = after_convert done e w (cv.convert w.table e.pairs)

  -- The case of DELETE.
  unfoldable pub on_delete : (ℕ → Bool) → Event → Watcher T V → Result (Watcher T V)
  unfolding delete_all
  on_delete done e w = do
    let c = w.sender.cacher
    let (c', deleted) = delete_all (cv.invert_key w.table) e.key c (Cacher.get_all_keys c)
    let w' = with_cacher (record w { last_index = e.modified_index }) c'
    w'' ← broadcast done (w.pending ++ deleted) e.action w'
    ok (record w'' { pending = [] })

  -- An event of the store, at the time `now`.
  unfoldable pub on_event : (ℕ → Bool) → ℕ → Event → Watcher T V → Result (Watcher T V)
  on_event done now e w =
      let w' = record w { status = record { update_time = now; last_event = some e } } in
      elim e.action [
        | Action.set ↦ on_update done e w'
        | Action.update ↦ on_update done e w'
        | Action.delete ↦ on_delete done e w'
        | _ ↦ ok w'
      ]

-- Where `watchStore` stands: before a refresh, waiting for an event, or after its return.
pub data Phase : Type 0 where
  refreshing watching returned : Phase

pub record Loop (T V : Type 0) : Type 0 where
  pub phase : Phase
  pub watcher : Watcher T V

-- What the loop meets: the answer of `GetTree` with the error of `Store.Watch`, if any; an event; the
-- end of the channel of events; the end of its context.
pub data Input : Type 0 where
  round : Answer (List KvPair) → Option Text → Input
  event : ℕ → Event → Input
  closed cancelled : Input

module _ {T V : Type 0} (cv : Converter T V) (done : ℕ → Bool) where
  -- The broadcast of all keys that a refresh after a closed channel makes.
  unfoldable pub announce : Watcher T V → Result (Watcher T V)
  unfolding broadcast
  announce w =
      if w.broadcast_after_refresh
      then broadcast cv done (Cacher.get_all_keys w.sender.cacher) Action.set w
        >>= (λ w'. ok (record w' { broadcast_after_refresh = false }))
      else ok w

  -- What follows the refresh: an error sleeps and starts again.
  unfoldable pub after_refresh : Option Text → Watcher T V × Result (Unit {0}) → Result (Loop T V)
  unfolding announce
  after_refresh watch_error (w, panic) = panic
  after_refresh watch_error (w, err m) = ok (record { phase = refreshing; watcher = w })
  after_refresh watch_error (w, ok _) = do
    w' ← announce w
    ok (record { phase = elim watch_error [ none ↦ watching | some m ↦ refreshing ]; watcher = w' })

  -- From START to the watch.
  unfoldable pub start : Answer (List KvPair) → Option Text → Watcher T V → Result (Loop T V)
  unfolding refresh after_refresh
  start tree watch_error w = after_refresh watch_error (refresh cv tree w)

  -- One turn of `watchStore`. An input that its phase does not wait for changes nothing.
  unfoldable pub turn : Phase → Input → Watcher T V → Result (Loop T V)
  unfolding start
  turn refreshing (round tree watch_error) w = start tree watch_error w
  turn watching (event now e) w = do
    w' ← on_event cv done now e w
    ok (record { phase = watching; watcher = w' })
  turn watching closed w =
      ok (record { phase = refreshing; watcher = record w { broadcast_after_refresh = true } })
  turn watching cancelled w = ok (record { phase = returned; watcher = w })
  turn phase _ w = ok (record { phase = phase; watcher = w })

-- Watch
unfoldable pub watch : {T V : Type 0} → Text → ℕ → Watcher T V → Result (Watcher T V × ℕ)
watch prefix ctx w =
    if prefix == []
    then err (codes "empty key")
    else let (s, ch) = Sender.watch (if prefix == codes "*" then [] else prefix) ctx w.sender in
      ok (record w { sender = s }, ch)

-- Get
unfoldable pub get : {T V : Type 0} → Text → Watcher T V → Result (Data V)
get prefix w =
    if prefix == []
    then err (codes "empty key")
    else if prefix == codes "*"
    then ok (Cacher.get_all w.sender.cacher)
    else ok (Cacher.get w.sender.cacher prefix)

-- Status, with the numbers of receivers and of keys
unfoldable pub status : {T V : Type 0} → Watcher T V → Status × ℕ × ℕ
status w = (w.status, length w.sender.receivers, Cacher.count w.sender.cacher)
