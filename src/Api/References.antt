-- ===== src/Api/References.antt =====
-- The foreign keys from runs and schedules to scopes and profiles, and what keeps them.
pub mod Rows
pub mod Deletes
pub mod Creations
pub mod Inventory
pub mod Operations
pub mod Requests
use transport_lookout.Prelude.{
  ℕ, ◌+◌, String, Bool, true, false, ◌≡◌, refl, sym, ◌∙◌, ◌⊎◌, inl, inr, Option, none, some, List,
  [], ◌∷◌, ◌++◌, arith, ◌==◌, string_eq, eq_iff, find, modify, find-In, In, In-modify,
  In-modify_intro, In-append, In-append_left, if◌then◌else◌,
}
use transport_lookout.Model.{Db, InventoryScope, ScanProfile, ScanRun, ScanSchedule}

abbrev pub HasScope : Db → String → Type 0
HasScope db i = (s : InventoryScope) × In s db.scopes × (s.id ≡ i)

abbrev pub HasProfile : Db → String → Type 0
HasProfile db i = (p : ScanProfile) × In p db.profiles × (p.id ≡ i)

abbrev pub RunRefers : Db → ScanRun → Type 0
RunRefers db r = HasScope db r.inventory_scope_id × HasProfile db r.profile_id

abbrev pub ScheduleRefers : Db → ScanSchedule → Type 0
ScheduleRefers db s = HasScope db s.inventory_scope_id × HasProfile db s.profile_id

pub record HasReferences (db : Db) : Type 0 where
  pub runs_refer : (r : ScanRun) → In r db.runs → RunRefers db r
  pub schedules_refer : (s : ScanSchedule) → In s db.schedules → ScheduleRefers db s

-- The scopes and profiles of a database stay.
pub record Stays (db db' : Db) : Type 0 where
  pub scopes_stay : (i : String) → HasScope db i → HasScope db' i
  pub profiles_stay : (i : String) → HasProfile db i → HasProfile db' i

pub Stays-same : (db db' : Db) → db'.scopes ≡ db.scopes → db'.profiles ≡ db.profiles → Stays db db'
Stays-same db db' e f = record {
  scopes_stay = λ i (s, m, k). (s, rw e m, k);
  profiles_stay = λ i (p, m, k). (p, rw f m, k);
}

-- A run has the references of an earlier one, or refers to rows that are there; so has a schedule.
pub record Follows (db db' : Db) : Type 0 where
  pub stays : Stays db db'
  pub runs_follow :
      (r : ScanRun)
      → In r db'.runs
      → ((x : ScanRun) × In x db.runs
          × (x.inventory_scope_id ≡ r.inventory_scope_id)
          × (x.profile_id ≡ r.profile_id))
        ⊎ RunRefers db' r
  pub schedules_follow :
      (s : ScanSchedule)
      → In s db'.schedules
      → ((x : ScanSchedule) × In x db.schedules
          × (x.inventory_scope_id ≡ s.inventory_scope_id)
          × (x.profile_id ≡ s.profile_id))
        ⊎ ScheduleRefers db' s

pub Follows-HasReferences : {db db' : Db} → Follows db db' → HasReferences db → HasReferences db'
Follows-HasReferences f h = record {
  runs_refer = λ r m. elim (f.runs_follow r m) [
    | inl (x, n, a, b) ↦
        let (s, p) = h.runs_refer x n in
        (
          f.stays.scopes_stay r.inventory_scope_id (rw (← a) s),
          f.stays.profiles_stay r.profile_id (rw (← b) p),
        )
    | inr q ↦ q
  ];
  schedules_refer = λ c m. elim (f.schedules_follow c m) [
    | inl (x, n, a, b) ↦
        let (s, p) = h.schedules_refer x n in
        (
          f.stays.scopes_stay c.inventory_scope_id (rw (← a) s),
          f.stays.profiles_stay c.profile_id (rw (← b) p),
        )
    | inr q ↦ q
  ];
}

-- A request that leaves runs and schedules alone.
pub Follows-same :
    (db db' : Db)
    → Stays db db'
    → db'.runs ≡ db.runs
    → db'.schedules ≡ db.schedules
    → Follows db db'
Follows-same db db' s e f = record {
  stays = s;
  runs_follow = λ r m. inl (r, rw e at m, refl, refl);
  schedules_follow = λ c m. inl (c, rw f at m, refl, refl);
}

-- What the session's `get` finds is there.
pub found-HasScope :
    (i : String) (db : Db) (scope : InventoryScope)
    → find (λ s. s.id == i) db.scopes ≡ some scope
    → HasScope db scope.id
found-HasScope i db scope e = (scope, (find-In (λ s. s.id == i) scope db.scopes e).0, refl)

pub found-HasProfile :
    (i : String) (db : Db) (profile : ScanProfile)
    → find (λ p. p.id == i) db.profiles ≡ some profile
    → HasProfile db profile.id
found-HasProfile i db profile e =
    (profile, (find-In (λ p. p.id == i) profile db.profiles e).0, refl)
