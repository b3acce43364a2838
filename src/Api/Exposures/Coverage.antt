-- ===== src/Api/Exposures/Coverage.antt =====
-- Each filtered exposure has its row in the deduplicated view.
use transport_lookout.Prelude.{
  int_eq, ◌≤◌, String, ◌≡◌, refl, subst, ◌∙◌, inl, inr, Bool, true, List, [], ◌∷◌, arith, In,
  In-select_intro, Bool-cases,
}
use transport_lookout.Config.{Env}
use transport_lookout.Model.{Db, CurrentExposure}
use transport_lookout.Diff.Items.{In-order_by_intro}
use transport_lookout.Api.Exposures.{
  Filter, matches, filtered_exposures, same_partition, merge, add_ranked, ranked,
  deduplicated_exposures,
}
use transport_lookout.Api.Exposures.Dedup.{partition, same_partition_iff, merge-partition}

-- The row of the partition of `e`, seen first no later and last no earlier than it.
abbrev pub Covers : CurrentExposure → CurrentExposure → Type 0
Covers e row =
    (partition row ≡ partition e)
    × (row.first_seen_at ≤ e.first_seen_at)
    × (e.last_seen_at ≤ row.last_seen_at)

abbrev IsCovered : CurrentExposure → List CurrentExposure → Type 0
IsCovered e rows = (row : CurrentExposure) × In row rows × Covers e row

IsCovered-new : (e : CurrentExposure) (xs : List CurrentExposure) → IsCovered e (add_ranked e xs)
unfolding add_ranked merge
IsCovered-new e [] = (e, inl refl, (refl, omega arith, omega arith))
IsCovered-new e (x ∷ xs) = elim (Bool-cases (same_partition e x)) [
  | inl t ↦ rw t (
    merge e x,
    inl refl,
    (merge-partition e x ((same_partition_iff e x).0 t), omega arith, omega arith),
  )
  | inr t ↦ let (row, m, c) = IsCovered-new e xs in rw t (row, inr m, c)
]

IsCovered-add_ranked :
    (y e : CurrentExposure) (xs : List CurrentExposure)
    → IsCovered y xs
    → IsCovered y (add_ranked e xs)
unfolding add_ranked merge
IsCovered-add_ranked y e [] (row, m, c) = absurd m
IsCovered-add_ranked y e (x ∷ xs) (row, inl k, c) = elim (Bool-cases (same_partition e x)) [
  | inl t ↦
      let q = (same_partition_iff e x).0 t in
      let (p, first, last) = subst (Covers y) k c in
      rw t (merge e x, inl refl, (merge-partition e x q ∙ (q ∙ p), omega arith, omega arith))
  | inr t ↦ rw t (row, inl k, c)
]
IsCovered-add_ranked y e (x ∷ xs) (row, inr n, c) = elim (Bool-cases (same_partition e x)) [
  | inl t ↦ rw t (row, inr n, c)
  | inr t ↦ let (z, m, d) = IsCovered-add_ranked y e xs (row, n, c) in rw t (z, inr m, d)
]

IsCovered-ranked :
    (e : CurrentExposure) (es : List CurrentExposure) → In e es → IsCovered e (ranked es)
unfolding ranked
IsCovered-ranked e [] m = absurd m
IsCovered-ranked e (x ∷ xs) (inl k) = rw k (IsCovered-new x (ranked xs))
IsCovered-ranked e (x ∷ xs) (inr m) = IsCovered-add_ranked e x (ranked xs) (IsCovered-ranked e xs m)

-- Each exposure that the filter lets through is shown by a row of its partition, which was seen first no
-- later and last no earlier than it.
pub filtered-IsCovered :
    (env : Env) (ilike : String → String → Bool) (f : Filter) (db : Db) (e : CurrentExposure)
    → In e db.exposures
    → matches ilike f e ≡ true
    → (row : CurrentExposure) × In row (deduplicated_exposures env ilike f db) × Covers e row
unfolding deduplicated_exposures filtered_exposures
filtered-IsCovered env ilike f db e m t =
    let (row, n, c) =
      IsCovered-ranked e (filtered_exposures ilike f db)
        (In-select_intro (matches ilike f) e db.exposures m t) in
    (row, In-order_by_intro _ row _ n, c)
