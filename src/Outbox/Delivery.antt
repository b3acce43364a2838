-- ===== src/Outbox/Delivery.antt =====
-- The transactional outbox: each delivery is a task at the broker.
use transport_lookout.Prelude.{
  ℕ, String, ◌≡◌, ◌≢◌, refl, inl, inr, Bool, true, false, ◌&&◌, Option, none, some, List, [], ◌∷◌,
  arith, ◌==◌, string_eq, eq_iff, is_none, find, In, In-modify_intro, In-select, In-order_by,
  In-take, Apart-In, Distinct, Distinct-select, Distinct-order_by, Distinct-take, Bool-cases,
}
use transport_lookout.Config.{Env}
use transport_lookout.Model.{Db, OutboxEvent, ScanShard, ShardStatus, shard_status_eq}
use transport_lookout.Outbox.{
  Broker, lacks_token, set_event, superseded, send_failed, send_done, answered, deliver_token,
  deliver, bind_token, bind_event, publish_unfenced, publish_event, publish_all, pending_events,
  publish_pending_outbox,
}
use transport_lookout.Outbox.Accounts.{event_id, IsAccounted, publish_event-IsAccounted}

module _ (env : Env) (now : ℕ) (broker : Broker) where
  -- The other events are as they were.
  set_event-others :
      (id : String) (f : OutboxEvent → OutboxEvent) (e : OutboxEvent) (db : Db)
      → id ≢ e.id
      → In e db.outbox
      → In e (set_event id f db).outbox
  set_event-others id f e db n m =
      let miss : (e.id == id) ≡ false = ground (arith, eq_iff e.id id) in
      rw miss at (In-modify_intro (λ x. x.id == id) f e db.outbox m)

  -- `e` is a row of the table that comes back.
  abbrev KeptIn : OutboxEvent → Bool × Db → Type 0
  KeptIn e r = In e r.1.outbox

  answered-others :
      (event e : OutboxEvent) (t : String) (answer : Option String) (db : Db)
      → event.id ≢ e.id
      → In e db.outbox
      → KeptIn e (answered now event t answer db)
  unfolding answered
  answered-others event e t (some error) db n m =
      set_event-others event.id (send_failed error) e db n m
  answered-others event e t none db n m = set_event-others event.id (send_done now) e db n m

  deliver_token-others :
      (event e : OutboxEvent) (token : Option String) (db : Db)
      → event.id ≢ e.id
      → In e db.outbox
      → KeptIn e (deliver_token now broker event token db)
  unfolding deliver_token
  deliver_token-others event e none db n m =
      set_event-others event.id (send_failed "'lease_token'") e db n m
  deliver_token-others event e (some t) db n m = answered-others event e t (broker event) db n m

  deliver-others :
      (event e : OutboxEvent) (db : Db)
      → event.id ≢ e.id
      → In e db.outbox
      → KeptIn e (deliver now broker event db)
  unfolding deliver
  deliver-others event e db n m = deliver_token-others event e event.payload.lease_token db n m

  publish_unfenced-others :
      (event e : OutboxEvent) (found : Option ScanShard) (db : Db)
      → event.id ≢ e.id
      → In e db.outbox
      → KeptIn e (publish_unfenced env now broker event found db)
  unfolding publish_unfenced
  publish_unfenced-others event e none db n m = set_event-others event.id (superseded now) e db n m
  publish_unfenced-others event e (some shard) db n m =
      elim (Bool-cases (shard.status == ShardStatus.leased)) [
        | inl h ↦
            rw (h, publish_unfenced)
              (deliver-others (bind_token (env.uuid4 db.drawn) event) e
                (bind_event env event shard db) (unfold bind_token in n)
                (unfold bind_event in
                  set_event-others event.id (bind_token (env.uuid4 db.drawn)) e db n m))
        | inr h ↦ rw (h, publish_unfenced) (set_event-others event.id (superseded now) e db n m)
      ]

  publish_event-others :
      (event e : OutboxEvent) (db : Db)
      → event.id ≢ e.id
      → In e db.outbox
      → KeptIn e (publish_event env now broker event db)
  unfolding publish_event
  publish_event-others event e db n m =
      elim (Bool-cases (event.topic == "scan_shard" && lacks_token event.payload)) [
        | inl h ↦
            rw (h, publish_event) (publish_unfenced-others event e (find of_event db.shards) db n m)
        | inr h ↦ rw (h, publish_event) (deliver-others event e db n m)
      ]
    where
      of_event : ScanShard → Bool
      of_event s = s.id == event.payload.shard_id

  publish_all-IsAccounted :
      (events : List OutboxEvent) (n : ℕ) (db : Db)
      → Distinct event_id events
      → ((e : OutboxEvent) → In e events → (e.delivered_at ≡ none) × In e db.outbox)
      → IsAccounted db
      → IsAccounted (publish_all env now broker events n db).1
  unfolding publish_all
  publish_all-IsAccounted [] n db d h a = a
  publish_all-IsAccounted (event ∷ rest) n db d h a =
      let own = h event (inl refl) in
      publish_all-IsAccounted rest _ _ d.1
        (λ e i.
          let r = h e (inr i) in
          (r.0, publish_event-others event e db (Apart-In event_id event e rest d.0 i) r.1))
        (publish_event-IsAccounted env now broker event db own.0 own.1 a)

  -- Publishing keeps the books: where the events have distinct identifiers and every event that is
  -- marked as delivered has a task at the broker with the event's shard and token, or was superseded,
  -- this is so afterwards, whichever sends fail.
  pub publish_pending_outbox-IsAccounted :
      (limit : ℕ) (db : Db)
      → IsAccounted db
      → IsAccounted (publish_pending_outbox env now broker limit db).1
  unfolding publish_pending_outbox pending_events
  publish_pending_outbox-IsAccounted limit db a =
      publish_all-IsAccounted (pending_events limit db) 0 db
        (Distinct-take event_id limit _ (
          Distinct-order_by event_id _ _
            (Distinct-select event_id (λ e. is_none e.delivered_at) db.outbox a.keys)))
        (λ e i.
          let r =
            In-select (λ x. is_none x.delivered_at) e db.outbox
              (In-order_by _ e _ (In-take limit e _ i)) in
          (none_of e.delivered_at r.1, r.0))
        a
    where
      none_of : (o : Option ℕ) → is_none o ≡ true → o ≡ none
      none_of none e = refl
      none_of (some t) e = absurd (cc)
