-- ===== src/Watcher/Sender.antt =====
-- watcher/sender.go: the sender with its receivers and their channels. `Broadcast`, `Watch` and
-- `clearNilReceivers` hold the sender's lock throughout, so each call is one atomic step.
pub mod Safety
pub mod Delivery
pub mod Reachable
pub mod UpToDate
pub mod Keeping
pub mod Following
use lainlet.Base.{
  ℕ, ◌+◌, ◌/◌, ◌%◌, ◌^◌, Bool, true, false, ◌&&◌, Option, none, some, List, [], ◌∷◌, ◌++◌, ltb, leb,
  if◌then◌else◌, Text, ◌==◌, nat_eq, text_eq, Result, ok, panic, ◌>>=◌, length, any, has_prefix,
}
use lainlet.Store.{Action}
use lainlet.Watcher.Cacher.{Data, Cacher, new_cacher, get}

-- watcher.Event
pub record Event (V : Type 0) : Type 0 where
  pub id : ℕ  -- uint64
  pub action : Action
  pub content : Data V

-- A channel: all that was ever sent on it, oldest first, how much of that the consumer has taken,
-- and whether it is closed.
pub record Channel (V : Type 0) : Type 0 where
  pub sent : List (Event V)
  pub received : ℕ
  pub closed : Bool

-- The channels are shared with the consumers, so they stand in a store of their own.
abbrev pub Channels : Type 0 → Type 0
Channels V = ℕ → Channel V

-- watcher.Receiver; the context and the channel are named by numbers.
pub record Receiver : Type 0 where
  pub key : Text
  pub ctx : ℕ
  pub ch : ℕ
  pub counter : ℕ  -- uint64

-- watcher.Sender; `none` is a nil receiver, `fresh` the first channel that is not yet made.
pub record Sender (V : Type 0) : Type 0 where
  pub cacher : Cacher V
  pub receivers : List (Option Receiver)
  pub channels : Channels V
  pub fresh : ℕ

unfoldable pub update : {V : Type 0} → Channels V → ℕ → Channel V → Channels V
update h c x d = if d == c then x else h d

-- The loop of `clearNilReceivers`.
unfoldable pub live_slots : List (Option Receiver) → List (Option Receiver)
live_slots [] = []
live_slots (none ∷ rs) = live_slots rs
live_slots (some r ∷ rs) = some r ∷ live_slots rs

module _ {V : Type 0} where
  -- make(chan *Event, 1)
  abbrev pub make_channel : Channel V
  make_channel = record { sent = []; received = 0; closed = false }

  -- Whether a send on the channel, whose capacity is 1, goes through at once.
  abbrev pub has_room : Channel V → Bool
  has_room c = ltb (length c.sent) (c.received + 1)

  -- NewSender
  unfoldable pub new_sender : Option (Data V) → Sender V
  new_sender m = record {
    cacher = new_cacher m;
    receivers = [];
    channels = λ _. make_channel;
    fresh = 0;
  }

  -- The body of the loop of `Broadcast` at a receiver that is not nil. A close of a closed channel
  -- and a send on one panic.
  unfoldable pub notify :
      (ℕ → Bool)
      → Cacher V
      → List Text
      → Action
      → Channels V
      → Receiver
      → Result (Channels V × Option Receiver)
  notify done cacher changed action h r =
      let channel = h r.ch in
      if done r.ctx
      then if channel.closed
        then panic
        else ok (update h r.ch (record channel { closed = true }), none)
      else if any (λ k. has_prefix k r.key) changed
      then if channel.closed
        then panic
        else if has_room channel
        then ok (
          update h r.ch (record channel {
            sent =
                channel.sent
                ++ record { id = r.counter; action = action; content = get cacher r.key } ∷ [];
          }),
          some (record r { counter = (r.counter + 1) % 2 ^ 64 }),
        )
        else ok (h, some r)
      else ok (h, some r)

  -- The loop of `Broadcast`: the channels, the slots of the receivers and `nilCounter`.
  unfoldable pub notify_all :
      (ℕ → Bool)
      → Cacher V
      → List Text
      → Action
      → Channels V
      → List (Option Receiver)
      → Result (Channels V × List (Option Receiver) × ℕ)
  notify_all done cacher changed action h [] = ok (h, [], 0)
  notify_all done cacher changed action h (none ∷ rs) = do
    (h', slots, nils) ← notify_all done cacher changed action h rs
    ok (h', none ∷ slots, nils + 1)
  notify_all done cacher changed action h (some r ∷ rs) = do
    (h', slot) ← notify done cacher changed action h r
    (h'', slots, nils) ← notify_all done cacher changed action h' rs
    ok (h'', slot ∷ slots, nils)

  -- Broadcast: the sender, and whether `clearNilReceivers` is started. `done` tells the contexts
  -- that were cancelled.
  unfoldable pub broadcast : (ℕ → Bool) → List Text → Action → Sender V → Result (Sender V × Bool)
  unfolding notify_all
  broadcast done changed action s = do
    (h, slots, nils) ← notify_all done s.cacher changed action s.channels s.receivers
    ok (
      record s { channels = h; receivers = slots },
      ltb 0 nils && leb (length s.receivers / 2) nils,
    )

  -- Watch: the sender, and the channel that is returned.
  unfoldable pub watch : Text → ℕ → Sender V → Sender V × ℕ
  watch key ctx s = (
    record s {
      receivers =
          s.receivers ++ some (record { key = key; ctx = ctx; ch = s.fresh; counter = 2 }) ∷ [];
      channels = update s.channels s.fresh make_channel;
      fresh = s.fresh + 1;
    },
    s.fresh,
  )

  -- clearNilReceivers
  unfoldable pub clear_nil_receivers : Sender V → Sender V
  unfolding live_slots
  clear_nil_receivers s = record s { receivers = live_slots s.receivers }

  -- A consumer reads from its channel, when something is there to read.
  unfoldable pub take_event : ℕ → Sender V → Sender V
  take_event c s =
      let channel = s.channels c in
      if ltb channel.received (length channel.sent)
      then record s {
        channels = update s.channels c (record channel { received = channel.received + 1 });
      }
      else s
