-- ===== src/Outbox/Accounts.antt =====
-- The transactional outbox, one event at a time: what marks an event as delivered.
use transport_lookout.Prelude.{
  ℕ, String, ◌≡◌, refl, sym, ap, subst, ◌∙◌, ◌⊎◌, inl, inr, Bool, true, false, ◌&&◌, Option, none,
  some, List, [], ◌∷◌, ◌++◌, ◌==◌, string_eq, eq_iff, find, In, In-append_left, In-append_right,
  In-modify, In-modify_intro, Distinct, Distinct-In, Distinct-modify, Bool-cases,
}
use transport_lookout.Config.{Env}
use transport_lookout.Model.{Db, OutboxEvent, Task, ScanShard, ShardStatus, shard_status_eq}
use transport_lookout.Outbox.{
  Broker, lacks_token, set_event, superseded, send_failed, send_done, answered, deliver_token,
  deliver, bind_token, bind_event, publish_unfenced, publish_event,
}

abbrev pub event_id : OutboxEvent → String
event_id e = e.id

-- An event that is marked as delivered: the broker has accepted its task, with its token, or the event
-- was superseded. All others are still to be sent.
abbrev pub Accounted : List Task → OutboxEvent → Type 0
Accounted sent e =
    (e.delivered_at ≡ none)
    ⊎ ((t : String) × (e.payload.lease_token ≡ some t)
        × In (record { shard_id = e.payload.shard_id; lease_token = t }) sent)
    ⊎ (e.last_error ≡ some "superseded before execution fencing upgrade")

pub record IsAccounted (db : Db) : Type 0 where
  pub keys : Distinct event_id db.outbox
  pub events : (e : OutboxEvent) → In e db.outbox → Accounted db.sent e

Accounted-more :
    (sent : List Task) (t : Task) (e : OutboxEvent)
    → Accounted sent e
    → Accounted (sent ++ t ∷ []) e
Accounted-more sent t e (inl a) = inl a
Accounted-more sent t e (inr (inl (k, a, b))) = inr (inl (k, a, In-append_left _ sent (t ∷ []) b))
Accounted-more sent t e (inr (inr a)) = inr (inr a)

-- An update of one row, `event`, that leaves this row accounted for.
set_event-IsAccounted :
    (event : OutboxEvent) (f : OutboxEvent → OutboxEvent) (db : Db)
    → ((e : OutboxEvent) → (f e).id ≡ e.id)
    → IsAccounted db
    → In event db.outbox
    → Accounted db.sent (f event)
    → IsAccounted (set_event event.id f db)
set_event-IsAccounted event f db same a m h = record {
  keys = Distinct-modify event_id (λ e. e.id == event.id) f same db.outbox a.keys;
  events =
      λ y j. let (x, k, c) = In-modify (λ e. e.id == event.id) f y db.outbox j in split y x k c;
}
  where
    split :
        (y x : OutboxEvent)
        → In x db.outbox
        → ((x.id == event.id) ≡ true) × (y ≡ f x) ⊎ ((x.id == event.id) ≡ false) × (y ≡ x)
        → Accounted db.sent y
    split y x k (inl (e, q)) =
        let w = Distinct-In event_id x event db.outbox a.keys k m ((eq_iff x.id event.id).0 e) in
        subst (Accounted db.sent) (sym (q ∙ ap f w)) h
    split y x k (inr (e, q)) = subst (Accounted db.sent) (sym q) (a.events x k)

module _ (env : Env) (now : ℕ) (broker : Broker) where
  answered-IsAccounted :
      (event : OutboxEvent) (t : String) (answer : Option String) (db : Db)
      → event.delivered_at ≡ none
      → event.payload.lease_token ≡ some t
      → In event db.outbox
      → IsAccounted db
      → IsAccounted (answered now event t answer db).1
  unfolding answered
  answered-IsAccounted event t (some error) db p e m a =
      set_event-IsAccounted event (send_failed error) db (λ x. unfold send_failed in refl) a m
        (unfold send_failed in inl p)
  answered-IsAccounted event t none db p e m a =
      set_event-IsAccounted event (send_done now) _ (λ x. unfold send_done in refl)
        (record { keys = a.keys; events = λ x i. Accounted-more db.sent _ x (a.events x i) }) m
        (unfold send_done in inr (inl (t, e, In-append_right _ db.sent _ (inl refl))))

  deliver_token-IsAccounted :
      (event : OutboxEvent) (token : Option String) (db : Db)
      → event.delivered_at ≡ none
      → event.payload.lease_token ≡ token
      → In event db.outbox
      → IsAccounted db
      → IsAccounted (deliver_token now broker event token db).1
  unfolding deliver_token send_failed
  deliver_token-IsAccounted event none db p e m a =
      set_event-IsAccounted event (send_failed "'lease_token'") db (λ x. refl) a m (inl p)
  deliver_token-IsAccounted event (some t) db p e m a =
      answered-IsAccounted event t (broker event) db p e m a

  deliver-IsAccounted :
      (event : OutboxEvent) (db : Db)
      → event.delivered_at ≡ none
      → In event db.outbox
      → IsAccounted db
      → IsAccounted (deliver now broker event db).1
  unfolding deliver
  deliver-IsAccounted event db p m a =
      deliver_token-IsAccounted event event.payload.lease_token db p refl m a

  bind_event-IsAccounted :
      (event : OutboxEvent) (shard : ScanShard) (db : Db)
      → event.delivered_at ≡ none
      → In event db.outbox
      → IsAccounted db
      → IsAccounted (bind_event env event shard db)
  unfolding bind_event bind_token
  bind_event-IsAccounted event shard db p m a =
      set_event-IsAccounted event (bind_token (env.uuid4 db.drawn)) _ (λ x. refl)
        (record { keys = a.keys; events = a.events }) m (inl p)

  In-bind_event :
      (event : OutboxEvent) (shard : ScanShard) (db : Db)
      → In event db.outbox
      → In (bind_token (env.uuid4 db.drawn) event) (bind_event env event shard db).outbox
  unfolding bind_event
  In-bind_event event shard db m =
      let bind = bind_token (env.uuid4 db.drawn) in
      rw ((eq_iff event.id event.id).1 refl) at
        (In-modify_intro (λ e. e.id == event.id) bind event db.outbox m)

  publish_unfenced-IsAccounted :
      (event : OutboxEvent) (found : Option ScanShard) (db : Db)
      → event.delivered_at ≡ none
      → In event db.outbox
      → IsAccounted db
      → IsAccounted (publish_unfenced env now broker event found db).1
  unfolding publish_unfenced superseded
  publish_unfenced-IsAccounted event none db p m a =
      set_event-IsAccounted event (superseded now) db (λ x. refl) a m (inr (inr refl))
  publish_unfenced-IsAccounted event (some shard) db p m a =
      elim (Bool-cases (shard.status == ShardStatus.leased)) [
        | inl e ↦
            rw (e, publish_unfenced)
              (deliver-IsAccounted (bind_token (env.uuid4 db.drawn) event)
                (bind_event env event shard db) (unfold bind_token in p)
                (In-bind_event event shard db m) (bind_event-IsAccounted event shard db p m a))
        | inr e ↦
            rw (e, publish_unfenced)
              (set_event-IsAccounted event (superseded now) db (λ x. refl) a m (inr (inr refl)))
      ]

  pub publish_event-IsAccounted :
      (event : OutboxEvent) (db : Db)
      → event.delivered_at ≡ none
      → In event db.outbox
      → IsAccounted db
      → IsAccounted (publish_event env now broker event db).1
  unfolding publish_event
  publish_event-IsAccounted event db p m a =
      elim (Bool-cases (event.topic == "scan_shard" && lacks_token event.payload)) [
        | inl e ↦
            rw (e, publish_event)
              (publish_unfenced-IsAccounted event (find of_event db.shards) db p m a)
        | inr e ↦ rw (e, publish_event) (deliver-IsAccounted event db p m a)
      ]
    where
      of_event : ScanShard → Bool
      of_event s = s.id == event.payload.shard_id
