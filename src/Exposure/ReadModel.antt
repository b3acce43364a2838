-- ===== src/Exposure/ReadModel.antt =====
-- The current-exposure table after a run has been materialised.
use transport_lookout.Prelude.{
  int_eq, ℕ, ◌+◌, String, ◌≡◌, refl, ◌⊎◌, inl, inr, Bool, true, false, none, some, List, [], ◌∷◌,
  arith, ◌==◌, nat_eq, string_eq, eq_iff, find, find_last, select, delete, In, Option-cases, Paired,
  delete-replace, select-replace,
}
use transport_lookout.Config.{Env}
use transport_lookout.Model.{Db, ScanRun, InventoryScope, CurrentExposure}
use transport_lookout.Exposure.{
  Observed, is_exposure_of, same_endpoint, or_now, exposure_row, exposure_rows, observed_services,
  materialize_current_exposures,
}

find_last-In :
    (p : CurrentExposure → Bool) (x : CurrentExposure) (xs : List CurrentExposure)
    → find_last p xs ≡ some x
    → In x xs × (p x ≡ true)
unfolding find_last
find_last-In p x [] e = absurd (cc)
find_last-In p x (y ∷ ys) e = ground (arith, find_last-In p x ys)

find_last-none :
    (p : CurrentExposure → Bool) (x : CurrentExposure) (xs : List CurrentExposure)
    → find_last p xs ≡ none
    → In x xs
    → p x ≡ false
unfolding find_last
find_last-none p x [] e m = absurd m
find_last-none p x (y ∷ ys) e m = ground (arith, find_last-none p x ys)

-- What a row says of one observation, given the rows that it replaces: it repeats the observation, it
-- was last seen now, and it continues the history of the endpoint, or starts one.
pub record Shows (run : ScanRun) (zone : String) (observed_at : ℕ) (existing : List CurrentExposure)
    (o : Observed) (e : CurrentExposure) : Type 0 where
  pub pair : (e.inventory_scope_id ≡ run.inventory_scope_id) × (e.profile_id ≡ run.profile_id)
  pub latest : e.latest_run_id ≡ run.id
  pub zoned : e.zone ≡ zone
  pub endpoint :
      (e.address ≡ o.host.address) × (e.protocol ≡ o.service.protocol) × (e.port ≡ o.service.port)
  pub detail :
      (e.service ≡ o.service.service)
      × (e.product ≡ o.service.product)
      × (e.version ≡ o.service.version)
  pub last_seen : e.last_seen_at ≡ observed_at
  pub history :
      ((old : CurrentExposure) × In old existing
        × (same_endpoint o old ≡ true)
        × (e.first_seen_at ≡ old.first_seen_at)
        × (e.scan_count ≡ old.scan_count + 1))
      ⊎ ((old : CurrentExposure) → In old existing → same_endpoint o old ≡ false)
        × (e.first_seen_at ≡ observed_at)
        × (e.scan_count ≡ 1)

module _ (env : Env) (scope : InventoryScope) (run : ScanRun) (observed_at : ℕ)
    (existing : List CurrentExposure) where
  exposure_row-Shows :
      (drawn : ℕ) (o : Observed)
      → Shows run scope.zone observed_at existing o
          (exposure_row env scope run observed_at existing drawn o)
  unfolding exposure_row
  exposure_row-Shows drawn o = record {
    pair = (refl, refl);
    latest = refl;
    zoned = refl;
    endpoint = (refl, refl, refl);
    detail = (refl, refl, refl);
    last_seen = refl;
    history = elim (Option-cases (find_last (same_endpoint o) existing)) [
      | inl e ↦ inr (
        λ old m. find_last-none (same_endpoint o) old existing e m,
        rw e refl,
        rw e (omega arith),
      )
      | inr (old, e) ↦
          let r = find_last-In (same_endpoint o) old existing e in
          inl (old, r.0, r.1, rw e refl, rw e refl)
    ];
  }

  exposure_rows-Shows :
      (drawn : ℕ) (os : List Observed)
      → Paired
          (Shows run scope.zone observed_at existing)
          os
          (exposure_rows env scope run observed_at existing drawn os)
  unfolding exposure_rows
  exposure_rows-Shows drawn [] = tt
  exposure_rows-Shows drawn (o ∷ os) =
      (exposure_row-Shows drawn o, exposure_rows-Shows (drawn + 1) os)

  exposure_rows-pair :
      (drawn : ℕ) (os : List Observed) (e : CurrentExposure)
      → In e (exposure_rows env scope run observed_at existing drawn os)
      → is_exposure_of run e ≡ true
  unfolding exposure_rows exposure_row
  exposure_rows-pair drawn [] e m = absurd m
  exposure_rows-pair drawn (o ∷ os) e (inl q) = rw q (
      ground (
        arith,
        (eq_iff run.inventory_scope_id run.inventory_scope_id).1 refl,
        (eq_iff run.profile_id run.profile_id).1 refl,
      ))
  exposure_rows-pair drawn (o ∷ os) e (inr m) = exposure_rows-pair (drawn + 1) os e m

-- Materialising a run whose scope exists replaces the rows of its scope and profile by one row for
-- each open service that the run observed, in order, and leaves every other row as it was. Each new
-- row repeats the observation, was last seen at the run's end, and continues the first-seen instant
-- and the scan count of an old row of its endpoint, or starts them where there is none.
pub materialize_replaces :
    (env : Env) (now : ℕ) (scope : InventoryScope) (run : ScanRun) (db : Db)
    → find (λ s. s.id == run.inventory_scope_id) db.scopes ≡ some scope
    → let db' = (materialize_current_exposures env now run db).1 in
      (delete (is_exposure_of run) db'.exposures ≡ delete (is_exposure_of run) db.exposures)
      × Paired
          (Shows run scope.zone
            (or_now run.completed_at now)
            (select (is_exposure_of run) db.exposures))
          (observed_services db run.id)
          (select (is_exposure_of run) db'.exposures)
unfolding materialize_current_exposures
materialize_replaces env now scope run db found =
    let existing = select (is_exposure_of run) db.exposures in
    let observed_at = or_now run.completed_at now in
    let os = observed_services db run.id in
    let rows = exposure_rows env scope run observed_at existing db.drawn os in
    let own = exposure_rows-pair env scope run observed_at existing db.drawn os in
    rw (found, materialize_current_exposures)
      (
        delete-replace (is_exposure_of run) db.exposures rows own,
        rw (select-replace (is_exposure_of run) db.exposures rows own)
            (exposure_rows-Shows env scope run observed_at existing db.drawn os),
      )
