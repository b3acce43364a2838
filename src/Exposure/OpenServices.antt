-- ===== src/Exposure/OpenServices.antt =====
-- Which observations the read model is built from.
use transport_lookout.Prelude.{
  String, ◌≡◌, ap, inl, inr, ◌↔◌, true, List, [], ◌∷◌, arith, string_eq, eq_iff, select, In,
  In-select, In-select_intro, In-append, In-append_left, In-append_right,
}
use transport_lookout.Model.{Db, HostObservation, ServiceObservation}
use transport_lookout.Exposure.{
  Observed, is_up, is_open_on, pair_with, join_services, observed_services,
}

In-pair_with :
    (h : HostObservation) (o : Observed) (ss : List ServiceObservation)
    → In o (pair_with h ss)
    → (o.host ≡ h) × In o.service ss
unfolding pair_with
In-pair_with h o [] i = absurd i
In-pair_with h o (s ∷ ss) (inl e) =
    (ap (λ (x : Observed). x.host) e, inl (ap (λ (x : Observed). x.service) e))
In-pair_with h o (s ∷ ss) (inr i) = let r = In-pair_with h o ss i in (r.0, inr r.1)

In-pair_with_intro :
    (h : HostObservation) (s : ServiceObservation) (ss : List ServiceObservation)
    → In s ss
    → In (record { host = h; service = s }) (pair_with h ss)
unfolding pair_with
In-pair_with_intro h s [] i = absurd i
In-pair_with_intro h s (t ∷ ss) (inl e) = inl (λ j. record { host = h; service = e j })
In-pair_with_intro h s (t ∷ ss) (inr i) = inr (In-pair_with_intro h s ss i)

module _ (services : List ServiceObservation) where
  In-join_services :
      (o : Observed) (hosts : List HostObservation)
      → In o (join_services hosts services)
      → In o.host hosts × In o.service services × (is_open_on o.host o.service ≡ true)
  unfolding join_services
  In-join_services o [] i = absurd i
  In-join_services o (h ∷ hs) i =
      elim (In-append o (pair_with h (select (is_open_on h) services)) (join_services hs services)
        i) [
          | inl m ↦
              let a = In-pair_with h o (select (is_open_on h) services) m in
              let b = In-select (is_open_on h) o.service services a.1 in (inl a.0, b.0, rw a.0 b.1)
          | inr m ↦ let r = In-join_services o hs m in (inr r.0, r.1, r.2)
        ]

  In-join_services_intro :
      (h : HostObservation) (s : ServiceObservation) (hosts : List HostObservation)
      → In h hosts
      → In s services
      → is_open_on h s ≡ true
      → In (record { host = h; service = s }) (join_services hosts services)
  unfolding join_services
  In-join_services_intro h s [] m n e = absurd m
  In-join_services_intro h s (x ∷ hs) (inl k) n e =
      In-append_left _ (pair_with x (select (is_open_on x) services)) (join_services hs services) (
        rw (← k) (
          In-pair_with_intro h s (select (is_open_on h) services)
            (In-select_intro (is_open_on h) s services n e)))
  In-join_services_intro h s (x ∷ hs) (inr m) n e =
      In-append_right _ (pair_with x (select (is_open_on x) services)) (join_services hs services)
        (In-join_services_intro h s hs m n e)

-- A host of the run that was up, with a service on it that was open.
abbrev pub IsOpenService : Db → String → HostObservation → ServiceObservation → Type 0
IsOpenService db run_id h s =
    In h db.hosts
    × In s db.services
    × (h.run_id ≡ run_id)
    × (h.state ≡ "up")
    × (s.host_observation_id ≡ h.id)
    × (s.state ≡ "open")

-- The joined query returns the open services on the hosts of the run that were up, and nothing else.
pub observed_services_iff :
    (db : Db) (run_id : String) (h : HostObservation) (s : ServiceObservation)
    → In (record { host = h; service = s }) (observed_services db run_id)
      ↔ IsOpenService db run_id h s
unfolding observed_services
observed_services_iff db run_id h s = (
  λ i.
      let a = In-join_services db.services (record { host = h; service = s }) _ i in
      let b = In-select (is_up run_id) h db.hosts a.0 in
      (
        b.0,
        a.1,
        (eq_iff h.run_id run_id).0 (ground (arith, b.1)),
        (eq_iff h.state "up").0 (ground (arith, b.1)),
        (eq_iff s.host_observation_id h.id).0 (ground (arith, a.2)),
        (eq_iff s.state "open").0 (ground (arith, a.2)),
      ),
  λ (m, n, a, b, c, d).
      In-join_services_intro db.services h s _
        (In-select_intro (is_up run_id) h db.hosts m
          (ground (arith, eq_iff h.run_id run_id, eq_iff h.state "up")))
        n (ground (arith, eq_iff s.host_observation_id h.id, eq_iff s.state "open")),
)
