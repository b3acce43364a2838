-- ===== src/Outbox.antt =====
-- src/scanpod_enterprise/services.py: `publish_pending_outbox`. What `celery.send_task` does with
-- an event is an argument: `none` where the broker accepts the task, else the text of the exception.
pub mod Shards
pub mod Accounts
pub mod Delivery
use transport_lookout.Prelude.{
  ℕ, zero, suc, ◌+◌, String, Bool, true, false, ◌&&◌, ◌||◌, not, Option, none, some, List, [], ◌∷◌,
  ◌++◌, leb, ◌==◌, string_eq, if◌then◌else◌, is_none, select, find, modify, take, order_by,
}
use transport_lookout.Config.{Env}
use transport_lookout.Model.{
  Db, OutboxEvent, Payload, Task, ScanShard, ShardStatus, shard_status_eq,
}

abbrev pub Broker : Type 0
Broker = OutboxEvent → Option String

-- `not event.payload.get("lease_token")`
abbrev pub lacks_token : Payload → Bool
lacks_token p = elim p.lease_token [ none ↦ true | some t ↦ t == "" ]

abbrev pub set_event : String → (OutboxEvent → OutboxEvent) → Db → Db
set_event id f db = record db { outbox = modify (λ e. e.id == id) f db.outbox }

unfoldable pub superseded : ℕ → OutboxEvent → OutboxEvent
superseded now e = record e {
  delivered_at = some now;
  last_error = some "superseded before execution fencing upgrade";
}

unfoldable pub send_failed : String → OutboxEvent → OutboxEvent
send_failed error e = record e { attempts = e.attempts + 1; last_error = some error }

unfoldable pub send_done : ℕ → OutboxEvent → OutboxEvent
send_done now e = record e { attempts = e.attempts + 1; delivered_at = some now; last_error = none }

-- What the broker's answer to the task comes to.
unfoldable pub answered : ℕ → OutboxEvent → String → Option String → Db → Bool × Db
unfolding send_failed send_done
answered now event token (some error) db = (false, set_event event.id (send_failed error) db)
answered now event token none db = (
  true,
  set_event event.id (send_done now) (record db {
    sent = db.sent ++ record { shard_id = event.payload.shard_id; lease_token = token } ∷ [];
  }),
)

-- `payload["lease_token"]` raises a KeyError where it is absent.
unfoldable pub deliver_token : ℕ → Broker → OutboxEvent → Option String → Db → Bool × Db
unfolding answered send_failed
deliver_token now broker event none db =
    (false, set_event event.id (send_failed "'lease_token'") db)
deliver_token now broker event (some token) db = answered now event token (broker event) db

-- The `try` block and what follows it.
unfoldable pub deliver : ℕ → Broker → OutboxEvent → Db → Bool × Db
unfolding deliver_token
deliver now broker event db = deliver_token now broker event event.payload.lease_token db

-- A pre-fencing event takes a token that is bound to its shard too.
unfoldable pub bind_token : String → OutboxEvent → OutboxEvent
bind_token token e = record e { payload = record e.payload { lease_token = some token } }

abbrev pub set_token : String → ScanShard → ScanShard
set_token token s = record s { lease_token = some token }

unfoldable pub bind_event : Env → OutboxEvent → ScanShard → Db → Db
unfolding bind_token
bind_event env event shard db = set_event event.id (bind_token token) (record db {
  shards = modify (λ s. s.id == shard.id) (set_token token) db.shards;
  drawn = db.drawn + 1;
})
  where
    token : String
    token = env.uuid4 db.drawn

-- A pre-fencing event: its shard, if it is still leased, takes a token before the event is sent.
unfoldable pub publish_unfenced : Env → ℕ → Broker → OutboxEvent → Option ScanShard → Db → Bool × Db
unfolding deliver superseded bind_event bind_token
publish_unfenced env now broker event none db = (false, set_event event.id (superseded now) db)
publish_unfenced env now broker event (some shard) db =
    if not (shard.status == ShardStatus.leased)
    then (false, set_event event.id (superseded now) db)
    else deliver now broker (bind_token (env.uuid4 db.drawn) event) (bind_event env event shard db)

-- One round of the loop.
unfoldable pub publish_event : Env → ℕ → Broker → OutboxEvent → Db → Bool × Db
unfolding publish_unfenced deliver
publish_event env now broker event db =
    if event.topic == "scan_shard" && lacks_token event.payload
    then publish_unfenced env now broker event
        (find (λ s. s.id == event.payload.shard_id) db.shards) db
    else deliver now broker event db

abbrev pub count_if : Bool → ℕ → ℕ
count_if true n = n + 1
count_if false n = n

unfoldable pub publish_all : Env → ℕ → Broker → List OutboxEvent → ℕ → Db → ℕ × Db
publish_all env now broker [] delivered db = (delivered, db)
publish_all env now broker (event ∷ rest) delivered db =
    let (done, db') = publish_event env now broker event db in
    publish_all env now broker rest (count_if done delivered) db'

unfoldable pub pending_events : ℕ → Db → List OutboxEvent
pending_events limit db = take limit (
    order_by (λ a b. leb a.created_at b.created_at)
      (select (λ e. is_none e.delivered_at) db.outbox))

unfoldable pub publish_pending_outbox : Env → ℕ → Broker → ℕ → Db → ℕ × Db
unfolding pending_events publish_all
publish_pending_outbox env now broker limit db =
    publish_all env now broker (pending_events limit db) 0 db
