-- ===== src/Endpoints/Lainlet.antt =====
-- endpoints/lainlet.go: the service that tells the version and the status of the watchers.
use lainlet.Base.{ℕ, ◌%◌, ◌^◌, Option, [], ◌∷◌, Text, nat_eq, text_eq, Result, ok, ◌>>=◌}
use lainlet.Base.{GoMap, insert}
use lainlet.Store.{Event}
use lainlet.Watcher.Loop.{Status}

-- pb.VersionReply
pub record VersionReply : Type 0 where
  pub version : Text
  pub api_version : Text

-- pb.WatcherStatus. An int32 and an int64 are bit patterns, below 2 ^ 32 and 2 ^ 64.
pub record WatcherStatus : Type 0 where
  pub num_receivers : ℕ
  pub update_time : ℕ
  pub last_event : Text
  pub total_keys : ℕ

-- pb.StatusReply
pub record StatusReply : Type 0 where
  pub goroutines : ℕ
  pub status : GoMap WatcherStatus

-- LainletEndpoint.Version
unfoldable pub get_version : (version api_version : Text) → Result VersionReply
get_version version api_version = ok (record { version = version; api_version = api_version })

-- `marshal` is json.Marshal on an event, `unix` is Time.Unix.
module _ (marshal : Option Event → Result Text) (unix : ℕ → ℕ) where
  -- The status of one watcher: the status that it keeps, the number of its receivers and of its keys.
  unfoldable pub watcher_status : Status × ℕ × ℕ → Result WatcherStatus
  watcher_status (kept, receivers, total) = marshal kept.last_event >>= (λ last_event. ok (record {
    num_receivers = receivers % 2 ^ 32;
    update_time = unix kept.update_time;
    last_event = last_event;
    total_keys = total % 2 ^ 32;
  }))

  -- The loop over the watchers.
  unfoldable pub all_status :
      GoMap (Status × ℕ × ℕ) → GoMap WatcherStatus → Result (GoMap WatcherStatus)
  unfolding watcher_status
  all_status [] out = ok out
  all_status ((name, s) ∷ watchers) out =
      watcher_status s >>= (λ st. all_status watchers (insert name st out))

  -- LainletEndpoint.Status
  unfoldable pub get_status : (goroutines : ℕ) → GoMap (Status × ℕ × ℕ) → Result StatusReply
  unfolding all_status
  get_status goroutines watchers =
      all_status watchers []
      >>= (λ status. ok (record { goroutines = goroutines % 2 ^ 32; status = status }))
