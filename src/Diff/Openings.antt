-- ===== src/Diff/Openings.antt =====
-- Which endpoints `exposure_diff` reports as opened.
use transport_lookout.Prelude.{
  String, ◌≡◌, refl, inl, inr, ◌↔◌, true, not, none, some, Option, List, [], ◌∷◌, map, ◌++◌, ◌==◌,
  nat_eq, nat_beq_iff, arith, select, In, In-select, In-select_intro, In-order_by, In-append,
  In-append_left, In-append_right, Bool-cases,
}
use transport_lookout.Model.{Db, ScanRun}
use transport_lookout.Exposure.{incomplete_discovery_shards}
use transport_lookout.Diff.{
  Endpoint, Item, Details, details, lookup, has_key, observed_items, up_hosts, ExposureChange,
  sorted_items, disappeared, opened, closed, changed_items, change_item, changed, open_item,
  close_item, changes_between, changes_since, diff_run, diff_runs, exposure_diff, ExposureDiff,
}
use ExposureChange.{host_disappeared, port_opened}
use transport_lookout.Diff.Items.{
  In-map, In-map_intro, In-order_by_intro, HasKey, lacks_key_iff, IsOpenAt, observed_items-HasKey,
}

module _ (key : Endpoint) where
  -- Some change of the list opens the endpoint.
  abbrev pub Opens : List ExposureChange → Type 0
  Opens changes = (d : Details) × In (port_opened key d) changes

  all-Opens : (items : List Item) → Opens (map open_item (sorted_items items)) ↔ HasKey items key
  unfolding sorted_items
  all-Opens items = (
    λ (d, m).
        let (i, n, e) = In-map open_item (port_opened key d) _ m in
        let q : key ≡ i.key = cc in rw (q) (i, In-order_by _ i _ n, refl),
    λ (i, m, k). rw (← k) (details i, In-map_intro open_item i _ (In-order_by_intro _ i _ m)),
  )

  opened-Opens :
      (current previous : List Item)
      → Opens (opened current previous) ↔ HasKey current key × ¬ HasKey previous key
  unfolding opened
  opened-Opens current previous =
      let a = all-Opens (select (λ i. not (has_key previous i.key)) current) in
      (
        λ h.
            let (i, m, k) = a.0 h in
            let (b, new) = In-select (λ x. not (has_key previous x.key)) i current m in
            rw (← k) ((i, b, refl), (lacks_key_iff previous i.key).0 new),
        λ ((i, m, k), new).
            let g : not (has_key previous i.key) ≡ true =
              rw (k) ((lacks_key_iff previous key).1 new) in
            a.1 (i, In-select_intro _ i current m g, k),
      )

  disappeared-Opens : (current previous : List String) → ¬ Opens (disappeared current previous)
  unfolding disappeared
  disappeared-Opens current previous (d, m) =
      let (a, n, e) = In-map host_disappeared (port_opened key d) _ m in absurd (cc)

  closed-Opens :
      (current : List Item) (hosts : List String) (previous : List Item)
      → ¬ Opens (closed current hosts previous)
  unfolding closed
  closed-Opens current hosts previous (d, m) =
      let (a, n, e) = In-map close_item (port_opened key d) _ m in absurd (cc)

  change_item-Opens :
      (i : Item) (old : Option Item) (rest : List ExposureChange)
      → Opens (change_item i old rest)
      → Opens rest
  change_item-Opens i none rest h = h
  change_item-Opens i (some old) rest (d, m) = (d, ground (arith, m))

  changed_items-Opens : (previous items : List Item) → ¬ Opens (changed_items previous items)
  unfolding changed_items
  changed_items-Opens previous [] (d, m) = absurd m
  changed_items-Opens previous (i ∷ is) (d, m) =
      changed_items-Opens previous is (change_item-Opens i (lookup i.key previous) _ (d, m))

  -- Only the second of four lists opens endpoints.
  second-Opens :
      (ks bs cs ds : List ExposureChange)
      → ¬ Opens ks
      → ¬ Opens cs
      → ¬ Opens ds
      → Opens (ks ++ (bs ++ (cs ++ ds))) ↔ Opens bs
  second-Opens ks bs cs ds a c d = (
    λ (x, m). elim (In-append (port_opened key x) ks (bs ++ (cs ++ ds)) m) [
      | inl n ↦ absurd (a (x, n))
      | inr n ↦ elim (In-append (port_opened key x) bs (cs ++ ds) n) [
        | inl o ↦ (x, o)
        | inr o ↦ elim (In-append (port_opened key x) cs ds o) [
          | inl p ↦ absurd (c (x, p))
          | inr p ↦ absurd (d (x, p))
        ]
      ]
    ],
    λ (x, m). (x, In-append_right _ ks (bs ++ (cs ++ ds)) (In-append_left _ bs (cs ++ ds) m)),
  )

  -- The endpoint is open, and it was not in the earlier run, if there is one.
  abbrev pub IsOpening : Db → ScanRun → Option ScanRun → Type 0
  IsOpening db current previous =
      IsOpenAt db current.id key × ((p : ScanRun) → previous ≡ some p → ¬ IsOpenAt db p.id key)

  changes_since-Opens :
      (db : Db) (current : ScanRun) (previous : Option ScanRun)
      → Opens (changes_since db current previous) ↔ IsOpening db current previous
  unfolding changes_between changed
  changes_since-Opens db current none =
      let a = all-Opens (observed_items db current) in
      let o = observed_items-HasKey db current key in
      (λ h. (o.0 (a.0 h), λ p e. absurd (cc)), λ (h, n). a.1 (o.1 h))
  changes_since-Opens db current (some previous) =
      let now = observed_items-HasKey db current key in
      let old = observed_items-HasKey db previous key in
      let a = opened-Opens (observed_items db current) (observed_items db previous) in
      let t =
        second-Opens _ _ _ _ (disappeared-Opens (up_hosts db current) (up_hosts db previous))
          (closed-Opens (observed_items db current) (up_hosts db current)
            (observed_items db previous))
          (changed_items-Opens (observed_items db previous) _) in
      (
        λ h.
            let (b, c) = a.0 (t.0 h) in
            (now.0 b, λ p e o. let q : previous ≡ p = cc in c (old.1 (rw (q) o))),
        λ (b, c). t.1 (a.1 (now.1 b, λ k. c previous refl (old.0 k))),
      )

  -- What a report that opens the endpoint is about.
  abbrev pub Shows : Db → ExposureDiff → Type 0
  Shows db report =
      (current : ScanRun) × (report.current ≡ some current)
      × (incomplete_discovery_shards db current.id ≡ 0)
      × IsOpening db current report.previous

  diff_run-Opens :
      (db : Db) (current : ScanRun) (previous : Option ScanRun)
      → Opens (diff_run db current previous).changes ↔ Shows db (diff_run db current previous)
  unfolding diff_run
  diff_run-Opens db current previous =
      elim (Bool-cases (incomplete_discovery_shards db current.id == 0)) [
        | inl e ↦
            let zero = (nat_beq_iff (incomplete_discovery_shards db current.id) 0).0 e in
            let c = changes_since-Opens db current previous in
            rw (e) (
              λ h. (current, refl, zero, c.0 h),
              λ (r, same, z, o). let q : current ≡ r = cc in c.1 (rw (q) o),
            )
        | inr f ↦ rw (f) (
          λ (d, m). absurd m,
          λ (r, same, z, o).
              let q : current ≡ r = cc in
              let t = (nat_beq_iff (incomplete_discovery_shards db current.id) 0).1 (rw (q) z) in
              absurd (cc),
        )
      ]

  diff_runs-Opens :
      (db : Db) (runs : List ScanRun)
      → Opens (diff_runs db runs).changes ↔ Shows db (diff_runs db runs)
  unfolding diff_runs
  diff_runs-Opens db [] = (λ (d, m). absurd m, λ (r, same, z, o). absurd (cc))
  diff_runs-Opens db (current ∷ []) = diff_run-Opens db current none
  diff_runs-Opens db (current ∷ previous ∷ rest) = diff_run-Opens db current (some previous)

-- `exposure_diff` reports an endpoint as opened exactly if it shows a current run without a shard of
-- incomplete discovery, that run has seen the endpoint open on a host that was up, and the previous
-- run that it shows, if any, has not.
pub exposure_diff-Opens :
    (scope_id profile_id : String) (db : Db) (key : Endpoint)
    → Opens key (exposure_diff scope_id profile_id db).changes
      ↔ Shows key db (exposure_diff scope_id profile_id db)
unfolding exposure_diff
exposure_diff-Opens scope_id profile_id db key = diff_runs-Opens key db _
