-- ===== src/Diff/Closures.antt =====
-- Which endpoints `exposure_diff` reports as closed.
use transport_lookout.Prelude.{
  String, ◌≡◌, refl, ◌⊎◌, inl, inr, ◌↔◌, true, not, none, some, Option, List, [], ◌∷◌, ◌++◌, ◌==◌,
  nat_eq, nat_beq_iff, arith, contains, In, In-select, In-select_intro, In-order_by, In-append,
  In-append_left, In-append_right, Bool-cases,
}
use transport_lookout.Model.{Db, ScanRun}
use transport_lookout.Exposure.{incomplete_discovery_shards}
use transport_lookout.Diff.{
  Endpoint, Item, Details, details, lookup, has_key, observed_items, up_hosts, ExposureChange,
  sorted_items, disappeared, opened, closed, changed_items, change_item, changed, open_item,
  close_item, changes_between, changes_since, diff_run, diff_runs, exposure_diff, ExposureDiff,
}
use ExposureChange.{host_disappeared, port_closed}
use transport_lookout.Diff.Items.{
  In-map, In-map_intro, In-order_by_intro, contains_iff, HasKey, lacks_key_iff, IsOpenAt, IsUpAt,
  observed_items-HasKey, up_hosts_iff,
}

module _ (key : Endpoint) where
  -- Some change of the list closes the endpoint.
  abbrev pub Closes : List ExposureChange → Type 0
  Closes changes = (d : Details) × In (port_closed key d) changes

  closed-Closes :
      (current : List Item) (hosts : List String) (previous : List Item)
      → Closes (closed current hosts previous)
        ↔ HasKey previous key × ¬ HasKey current key × In key.address hosts
  unfolding closed sorted_items
  closed-Closes current hosts previous = (
    λ (d, m).
        let (i, n, e) = In-map close_item (port_closed key d) _ m in
        let (a, up) = In-select (λ x. contains hosts x.key.address) i _ n in
        let (b, gone) =
          In-select (λ x. not (has_key current x.key)) i previous (In-order_by _ i _ a) in
        let q : key ≡ i.key = cc in
        rw (q) (
          (i, b, refl),
          (lacks_key_iff current i.key).0 gone,
          (contains_iff hosts i.key.address).0 up,
        ),
    λ ((i, m, k), gone, up).
        let g : not (has_key current i.key) ≡ true = rw (k) ((lacks_key_iff current key).1 gone) in
        let u : contains hosts i.key.address ≡ true =
          rw (k) ((contains_iff hosts key.address).1 up) in
        rw (← k) (
          details i,
          In-map_intro close_item i _ (
              In-select_intro _ i _ (In-order_by_intro _ i _ (In-select_intro _ i previous m g)) u),
        ),
  )

  disappeared-Closes : (current previous : List String) → ¬ Closes (disappeared current previous)
  unfolding disappeared
  disappeared-Closes current previous (d, m) =
      let (a, n, e) = In-map host_disappeared (port_closed key d) _ m in absurd (cc)

  opened-Closes : (current previous : List Item) → ¬ Closes (opened current previous)
  unfolding opened
  opened-Closes current previous (d, m) =
      let (a, n, e) = In-map open_item (port_closed key d) _ m in absurd (cc)

  change_item-Closes :
      (i : Item) (old : Option Item) (rest : List ExposureChange)
      → Closes (change_item i old rest)
      → Closes rest
  change_item-Closes i none rest h = h
  change_item-Closes i (some old) rest (d, m) = (d, ground (arith, m))

  changed_items-Closes : (previous items : List Item) → ¬ Closes (changed_items previous items)
  unfolding changed_items
  changed_items-Closes previous [] (d, m) = absurd m
  changed_items-Closes previous (i ∷ is) (d, m) =
      changed_items-Closes previous is (change_item-Closes i (lookup i.key previous) _ (d, m))

  Closes-append : (xs ys : List ExposureChange) → Closes (xs ++ ys) ↔ Closes xs ⊎ Closes ys
  Closes-append xs ys = (
    λ (d, m). elim (In-append (port_closed key d) xs ys m) [
      | inl n ↦ inl (d, n)
      | inr n ↦ inr (d, n)
    ],
    λ h. elim h [
      | inl (d, n) ↦ (d, In-append_left _ xs ys n)
      | inr (d, n) ↦ (d, In-append_right _ xs ys n)
    ],
  )

  -- The endpoint was open, it is not any more, and its host is still up.
  abbrev pub IsClosure : Db → ScanRun → ScanRun → Type 0
  IsClosure db current previous =
      IsOpenAt db previous.id key × ¬ IsOpenAt db current.id key × IsUpAt db current.id key.address

  closed-IsClosure :
      (db : Db) (current previous : ScanRun)
      → Closes
          (closed (observed_items db current) (up_hosts db current) (observed_items db previous))
        ↔ IsClosure db current previous
  closed-IsClosure db current previous =
      let c =
        closed-Closes (observed_items db current) (up_hosts db current)
          (observed_items db previous) in
      let now = observed_items-HasKey db current key in
      let old = observed_items-HasKey db previous key in
      let up = up_hosts_iff db current key.address in
      (
        λ h. let (a, b, e) = c.0 h in (old.0 a, λ o. b (now.1 o), up.0 e),
        λ (a, b, e). c.1 (old.1 a, λ k. b (now.0 k), up.1 e),
      )

  -- Only the third of four lists closes endpoints.
  third-Closes :
      (ks bs cs ds : List ExposureChange)
      → ¬ Closes ks
      → ¬ Closes bs
      → ¬ Closes ds
      → Closes (ks ++ (bs ++ (cs ++ ds))) ↔ Closes cs
  third-Closes ks bs cs ds a b d = (
    λ h. ground (
      arith,
      a,
      b,
      d,
      h,
      (Closes-append ks (bs ++ (cs ++ ds))).0,
      (Closes-append bs (cs ++ ds)).0,
      (Closes-append cs ds).0,
    ),
    λ h.
        (Closes-append ks (bs ++ (cs ++ ds))).1
          (inr ((Closes-append bs (cs ++ ds)).1 (inr ((Closes-append cs ds).1 (inl h))))),
  )

  changes_between-Closes :
      (db : Db) (current previous : ScanRun)
      → Closes (changes_between db current previous) ↔ IsClosure db current previous
  unfolding changes_between changed
  changes_between-Closes db current previous =
      let c = closed-IsClosure db current previous in
      let t =
        third-Closes _ _ _ _ (disappeared-Closes (up_hosts db current) (up_hosts db previous))
          (opened-Closes (observed_items db current) (observed_items db previous))
          (changed_items-Closes (observed_items db previous) _) in
      (λ h. c.0 (t.0 h), λ h. t.1 (c.1 h))

  -- What a report that closes the endpoint is about.
  abbrev pub Explains : Db → ExposureDiff → Type 0
  Explains db report =
      (current : ScanRun) × (previous : ScanRun) × (report.current ≡ some current)
      × (report.previous ≡ some previous)
      × (incomplete_discovery_shards db current.id ≡ 0)
      × IsClosure db current previous

  changes_since-Closes :
      (db : Db) (current : ScanRun) (previous : Option ScanRun)
      → Closes (changes_since db current previous)
        ↔ ((p : ScanRun) × (previous ≡ some p) × IsClosure db current p)
  changes_since-Closes db current none = (
    λ (d, m). let (i, n, e) = In-map open_item (port_closed key d) _ m in absurd (cc),
    λ (p, e, c). absurd (cc),
  )
  changes_since-Closes db current (some previous) =
      let c = changes_between-Closes db current previous in
      (λ h. (previous, refl, c.0 h), λ (p, e, h). let q : previous ≡ p = cc in c.1 (rw (q) h))

  diff_run-Closes :
      (db : Db) (current : ScanRun) (previous : Option ScanRun)
      → Closes (diff_run db current previous).changes ↔ Explains db (diff_run db current previous)
  unfolding diff_run
  diff_run-Closes db current previous =
      elim (Bool-cases (incomplete_discovery_shards db current.id == 0)) [
        | inl e ↦
            let zero = (nat_beq_iff (incomplete_discovery_shards db current.id) 0).0 e in
            let c = changes_since-Closes db current previous in
            rw (e) (
              λ h. let (p, s, o) = c.0 h in (current, p, refl, s, zero, o),
              λ (r, p, same, s, z, o). let q : current ≡ r = cc in c.1 (p, s, rw (q) o),
            )
        | inr f ↦ rw (f) (
          λ (d, m). absurd m,
          λ (r, p, same, s, z, o).
              let q : current ≡ r = cc in
              let t = (nat_beq_iff (incomplete_discovery_shards db current.id) 0).1 (rw (q) z) in
              absurd (cc),
        )
      ]

  diff_runs-Closes :
      (db : Db) (runs : List ScanRun)
      → Closes (diff_runs db runs).changes ↔ Explains db (diff_runs db runs)
  unfolding diff_runs
  diff_runs-Closes db [] = (λ (d, m). absurd m, λ (r, p, same, s, z, o). absurd (cc))
  diff_runs-Closes db (current ∷ []) = diff_run-Closes db current none
  diff_runs-Closes db (current ∷ previous ∷ rest) = diff_run-Closes db current (some previous)

-- `exposure_diff` reports an endpoint as closed exactly if it shows a current and a previous run, no
-- shard of the current run has incomplete discovery, the previous run has seen the endpoint open on a
-- host that was up, the current run has not, and the current run has seen the address up.
pub exposure_diff-Closes :
    (scope_id profile_id : String) (db : Db) (key : Endpoint)
    → Closes key (exposure_diff scope_id profile_id db).changes
      ↔ Explains key db (exposure_diff scope_id profile_id db)
unfolding exposure_diff
exposure_diff-Closes scope_id profile_id db key = diff_runs-Closes key db _
