-- ===== src/Api/Unique/Versions.antt =====
-- The next version of a profile is later than all those of its name.
use transport_lookout.Prelude.{
  ℕ, ◌≤◌, ◌<◌, String, ◌≡◌, ap, ◌≢◌, inl, inr, Bool-cases, Bool, List, [], ◌∷◌, arith, ◌==◌,
  string_eq, eq_iff, leb, select, order_by, insert_by, In, In-select_intro,
}
use transport_lookout.Model.{Db, ScanProfile}
use transport_lookout.Api.Profiles.{first_profile, latest_profile, next_version}
use transport_lookout.Api.Unique.{VersionKey, version_key}

abbrev latest_le : ScanProfile → ScanProfile → Bool
latest_le a b = leb b.version a.version

abbrev next_of : List ScanProfile → ℕ
next_of ps = next_version (first_profile ps)

next_of-insert_by :
    (x : ScanProfile) (ps : List ScanProfile)
    → (x.version < next_of (insert_by latest_le x ps))
      × (next_of ps ≤ next_of (insert_by latest_le x ps))
unfolding insert_by
next_of-insert_by x [] = (omega arith, omega arith)
next_of-insert_by x (p ∷ ps) = elim (Bool-cases (leb p.version x.version)) [
  | inl t ↦ rw t (omega arith, ground (arith, t))
  | inr t ↦ rw t (ground (arith, t), omega arith)
]

next_of-order_by :
    (p : ScanProfile) (ps : List ScanProfile)
    → In p ps
    → p.version < next_of (order_by latest_le ps)
unfolding order_by
next_of-order_by p [] m = absurd m
next_of-order_by p (x ∷ xs) (inl e) =
    let (a, b) = next_of-insert_by x (order_by latest_le xs) in rw e a
next_of-order_by p (x ∷ xs) (inr m) =
    let (a, b) = next_of-insert_by x (order_by latest_le xs) in
    let c = next_of-order_by p xs m in omega (arith, b, c)

pub next_version_lem :
    (name : String) (db : Db) (p : ScanProfile)
    → In p db.profiles
    → version_key p ≢ record { name = name; version = next_version (latest_profile name db) }
unfolding latest_profile
next_version_lem name db p m k =
    let named : p.name ≡ name = ap (λ (x : VersionKey). x.name) k in
    let versions = ap (λ (x : VersionKey). x.version) k in
    let n = In-select_intro (λ q. q.name == name) p db.profiles m ((eq_iff p.name name).1 named) in
    let later = next_of-order_by p (select (λ q. q.name == name) db.profiles) n in
    omega (arith, later, versions)
