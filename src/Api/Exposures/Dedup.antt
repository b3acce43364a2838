-- ===== src/Api/Exposures/Dedup.antt =====
-- What `deduplicated_exposures` keeps of the rows that it merges.
use transport_lookout.Prelude.{
  ℤ, int_eq, int_beq_iff, ℕ, ◌+◌, String, ◌≡◌, refl, sym, ap, ◌∙◌, ◌≢◌, inl, inr, ◌↔◌, Bool, true,
  Option, none, some, List, [], ◌∷◌, arith, nat_eq, string_eq, eq_iff, insert_by, order_by,
  Bool-cases, leb,
}
use transport_lookout.Config.{Env}
use transport_lookout.Model.{Db, CurrentExposure}
use transport_lookout.Diff.{text_beq}
use transport_lookout.Api.Exposures.{
  Filter, filtered_exposures, same_partition, later, merge, add_ranked, ranked,
  deduplicated_exposures,
}

-- The columns of the partition.
pub record Partition : Type 0 where
  pub address : String
  pub protocol : String
  pub port : ℤ
  pub service : Option String

abbrev pub partition : CurrentExposure → Partition
partition e = record {
  address = e.address;
  protocol = e.protocol;
  port = e.port;
  service = e.service;
}

text_beq_iff : (a b : Option String) → (text_beq a b ≡ true) ↔ (a ≡ b)
text_beq_iff none none = ground arith
text_beq_iff none (some b) = ground arith
text_beq_iff (some a) none = ground arith
text_beq_iff (some a) (some b) = ground (arith, eq_iff a b)

pub same_partition_iff :
    (a b : CurrentExposure) → (same_partition a b ≡ true) ↔ (partition a ≡ partition b)
same_partition_iff a b = (
  λ h.
      let p = (eq_iff a.address b.address).0 (ground (arith, h)) in
      let q = (eq_iff a.protocol b.protocol).0 (ground (arith, h)) in
      let r = (int_beq_iff a.port b.port).0 (ground (arith, h)) in
      let s = (text_beq_iff a.service b.service).0 (ground (arith, h)) in
      λ i. record { address = p i; protocol = q i; port = r i; service = s i },
  λ e.
      let p = (eq_iff a.address b.address).1 (ap (λ (x : Partition). x.address) e) in
      let q = (eq_iff a.protocol b.protocol).1 (ap (λ (x : Partition). x.protocol) e) in
      let r = (int_beq_iff a.port b.port).1 (ap (λ (x : Partition). x.port) e) in
      let s = (text_beq_iff a.service b.service).1 (ap (λ (x : Partition). x.service) e) in
      rw (p, q, r, s) refl,
)

later-partition :
    (a b : CurrentExposure) → partition a ≡ partition b → partition (later a b) ≡ partition a
later-partition a b e = elim (Bool-cases (leb b.last_seen_at a.last_seen_at)) [
  | inl t ↦ rw t refl
  | inr t ↦ rw t (sym e)
]

pub merge-partition :
    (a b : CurrentExposure) → partition a ≡ partition b → partition (merge a b) ≡ partition a
unfolding merge
merge-partition a b e = later-partition a b e

-- The scans that the rows count.
abbrev pub scans : List CurrentExposure → ℕ
scans [] = 0
scans (e ∷ es) = e.scan_count + scans es

scans-add_ranked :
    (e : CurrentExposure) (xs : List CurrentExposure)
    → scans (add_ranked e xs) ≡ e.scan_count + scans xs
unfolding add_ranked
scans-add_ranked e [] = refl
scans-add_ranked e (x ∷ xs) = elim (Bool-cases (same_partition e x)) [
  | inl t ↦ rw t (omega arith)
  | inr t ↦ rw t (omega (arith, scans-add_ranked e xs))
]

scans-ranked : (es : List CurrentExposure) → scans (ranked es) ≡ scans es
unfolding ranked
scans-ranked [] = refl
scans-ranked (e ∷ es) = omega (arith, scans-add_ranked e (ranked es), scans-ranked es)

scans-insert_by :
    (le : CurrentExposure → CurrentExposure → Bool) (x : CurrentExposure)
    (xs : List CurrentExposure)
    → scans (insert_by le x xs) ≡ x.scan_count + scans xs
unfolding insert_by
scans-insert_by le x [] = refl
scans-insert_by le x (y ∷ ys) = elim (Bool-cases (le x y)) [
  | inl t ↦ rw t refl
  | inr t ↦ rw t (omega (arith, scans-insert_by le x ys))
]

scans-order_by :
    (le : CurrentExposure → CurrentExposure → Bool) (xs : List CurrentExposure)
    → scans (order_by le xs) ≡ scans xs
unfolding order_by
scans-order_by le [] = refl
scans-order_by le (x ∷ xs) =
    omega (arith, scans-insert_by le x (order_by le xs), scans-order_by le xs)

-- No row of the list shares a partition with another.
abbrev pub Lone : CurrentExposure → List CurrentExposure → Type 0
Lone e [] = Unit
Lone e (x ∷ xs) = (partition e ≢ partition x) × Lone e xs

abbrev pub AllLone : List CurrentExposure → Type 0
AllLone [] = Unit
AllLone (x ∷ xs) = Lone x xs × AllLone xs

Lone-partition :
    (a b : CurrentExposure) (xs : List CurrentExposure)
    → partition b ≡ partition a
    → Lone a xs
    → Lone b xs
Lone-partition a b [] e l = tt
Lone-partition a b (x ∷ xs) e l = (λ q. l.0 (sym e ∙ q), Lone-partition a b xs e l.1)

Lone-add_ranked :
    (y e : CurrentExposure) (xs : List CurrentExposure)
    → partition y ≢ partition e
    → Lone y xs
    → Lone y (add_ranked e xs)
unfolding add_ranked
Lone-add_ranked y e [] n l = (n, tt)
Lone-add_ranked y e (x ∷ xs) n l = elim (Bool-cases (same_partition e x)) [
  | inl t ↦ let m = merge-partition e x ((same_partition_iff e x).0 t) in rw t (λ q. n (q ∙ m), l.1)
  | inr t ↦ rw t (l.0, Lone-add_ranked y e xs n l.1)
]

AllLone-add_ranked :
    (e : CurrentExposure) (xs : List CurrentExposure) → AllLone xs → AllLone (add_ranked e xs)
unfolding add_ranked
AllLone-add_ranked e [] l = (tt, tt)
AllLone-add_ranked e (x ∷ xs) l = elim (Bool-cases (same_partition e x)) [
  | inl t ↦
      let k = (same_partition_iff e x).0 t in
      rw t (Lone-partition x (merge e x) xs (merge-partition e x k ∙ k) l.0, l.1)
  | inr t ↦
      let n : partition x ≢ partition e =
        λ q. let s = (same_partition_iff e x).1 (sym q) in absurd (cc) in
      rw t (Lone-add_ranked x e xs n l.0, AllLone-add_ranked e xs l.1)
]

AllLone-ranked : (es : List CurrentExposure) → AllLone (ranked es)
unfolding ranked
AllLone-ranked [] = tt
AllLone-ranked (e ∷ es) = AllLone-add_ranked e (ranked es) (AllLone-ranked es)

module _ (le : CurrentExposure → CurrentExposure → Bool) where
  Lone-insert_by :
      (y x : CurrentExposure) (xs : List CurrentExposure)
      → partition y ≢ partition x
      → Lone y xs
      → Lone y (insert_by le x xs)
  unfolding insert_by
  Lone-insert_by y x [] n l = (n, tt)
  Lone-insert_by y x (z ∷ zs) n l = elim (Bool-cases (le x z)) [
    | inl t ↦ rw t (n, l)
    | inr t ↦ rw t (l.0, Lone-insert_by y x zs n l.1)
  ]

  AllLone-insert_by :
      (x : CurrentExposure) (xs : List CurrentExposure)
      → Lone x xs
      → AllLone xs
      → AllLone (insert_by le x xs)
  unfolding insert_by
  AllLone-insert_by x [] n l = (tt, tt)
  AllLone-insert_by x (z ∷ zs) n l = elim (Bool-cases (le x z)) [
    | inl t ↦ rw t (n, l)
    | inr t ↦ rw t (Lone-insert_by z x zs (λ q. n.0 (sym q)) l.0, AllLone-insert_by x zs n.1 l.1)
  ]

  Lone-order_by :
      (y : CurrentExposure) (xs : List CurrentExposure) → Lone y xs → Lone y (order_by le xs)
  unfolding order_by
  Lone-order_by y [] l = tt
  Lone-order_by y (x ∷ xs) l = Lone-insert_by y x (order_by le xs) l.0 (Lone-order_by y xs l.1)

  AllLone-order_by : (xs : List CurrentExposure) → AllLone xs → AllLone (order_by le xs)
  unfolding order_by
  AllLone-order_by [] l = tt
  AllLone-order_by (x ∷ xs) l =
      AllLone-insert_by x (order_by le xs) (Lone-order_by x xs l.0) (AllLone-order_by xs l.1)

-- The rows of the deduplicated view are of different partitions, and together they count the scans that
-- the filtered rows count.
pub deduplicated_exposures-AllLone :
    (env : Env) (ilike : String → String → Bool) (f : Filter) (db : Db)
    → AllLone (deduplicated_exposures env ilike f db)
      × (scans (deduplicated_exposures env ilike f db) ≡ scans (filtered_exposures ilike f db))
unfolding deduplicated_exposures
deduplicated_exposures-AllLone env ilike f db =
    let rows = filtered_exposures ilike f db in
    (
      AllLone-order_by _ (ranked rows) (AllLone-ranked rows),
      scans-order_by _ (ranked rows) ∙ scans-ranked rows,
    )
