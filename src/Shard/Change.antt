-- ===== src/Shard/Change.antt =====
-- What an operation does to the shard table as a whole: it keeps the primary keys, it draws
-- identifiers, and every row comes from an earlier one by updates, or is new.
use transport_lookout.Prelude.{
  ℕ, ◌≤◌, ◌<◌, String, ◌≡◌, refl, ◌∙◌, ◌⊎◌, inl, inr, Bool, true, false, List, modify, arith,
  if◌then◌else◌, In, In-modify, In-modify_intro, Distinct, Distinct-modify,
}
use transport_lookout.Config.{Env}
use transport_lookout.Model.{Db, ScanShard}
use transport_lookout.Shard.{
  Update, Updates, here, next, Origin, earlier, created, Updates-trans, Updates-mono,
}

-- `x` is one of the first `n` identifiers.
abbrev pub Drawn : Env → ℕ → String → Type 0
Drawn env n x = (k : ℕ) × (k < n) × (x ≡ env.uuid4 k)

abbrev pub shard_id : ScanShard → String
shard_id s = s.id

pub record IsValid (env : Env) (db : Db) : Type 0 where
  pub keys : Distinct shard_id db.shards
  pub ids : (s : ScanShard) → In s db.shards → Drawn env db.drawn s.id

pub record Change (env : Env) (db db' : Db) : Type 0 where
  pub valid : IsValid env db'
  pub drawn_le : db.drawn ≤ db'.drawn
  pub kept : (x : ScanShard) → In x db.shards → (y : ScanShard) × In y db'.shards × (y.id ≡ x.id)
  pub origin : (y : ScanShard) → In y db'.shards → Origin env db.drawn db.shards y

module _ {env : Env} where
  -- An operation that leaves the shards alone.
  pub Change-frame :
      {db : Db} (db' : Db)
      → IsValid env db
      → db'.shards ≡ db.shards
      → db.drawn ≤ db'.drawn
      → Change env db db'
  Change-frame {db} db' v e h = record {
    valid = record {
      keys = rw e v.keys;
      ids = λ s m. let (k, l, q) = v.ids s (rw e at m) in (k, omega arith, q);
    };
    drawn_le = h;
    kept = λ x m. (x, rw e m, refl);
    origin = λ y m. earlier y (rw e at m) here;
  }

  pub Change-refl : {db : Db} → IsValid env db → Change env db db
  Change-refl {db} v = Change-frame db v refl (omega arith)

  Origin-trans :
      {m n : ℕ} {rows rows' : List ScanShard} {z : ScanShard}
      → m ≤ n
      → ((y : ScanShard) → In y rows' → Origin env m rows y)
      → Origin env n rows' z
      → Origin env m rows z
  Origin-trans {m = m} {rows = rows} {z = z} h f (earlier y i us) =
      after (f y i) (Updates-mono h us)
    where
      after : {y : ScanShard} → Origin env m rows y → Updates env m y z → Origin env m rows z
      after (earlier x j vs) ws = earlier x j (Updates-trans vs ws)
      after (created k r c zone l vs) ws = created k r c zone l (Updates-trans vs ws)
  Origin-trans h f (created k r c zone l us) = created k r c zone (omega arith) (Updates-mono h us)

  pub Change-trans :
      {db db' db'' : Db} → Change env db db' → Change env db' db'' → Change env db db''
  Change-trans c d = record {
    valid = d.valid;
    drawn_le = omega arith;
    kept = λ x m. let (y, i, e) = c.kept x m in let (z, j, f) = d.kept y i in (z, j, f ∙ e);
    origin = λ z m. Origin-trans c.drawn_le c.origin (d.origin z m);
  }

  pub Change-if {ℓ} :
      {A : Type ℓ} {db : Db} (b : Bool) (x y : A × Db)
      → Change env db x.1
      → Change env db y.1
      → Change env db (if b then x else y).1
  Change-if true x y c d = c
  Change-if false x y c d = d

  -- An UPDATE statement.
  pub Change-modify :
      {db : Db} (db' : Db) (p : ScanShard → Bool) (f : ScanShard → ScanShard)
      → IsValid env db
      → db'.shards ≡ modify p f db.shards
      → db.drawn ≤ db'.drawn
      → ((s : ScanShard) → (f s).id ≡ s.id)
      → ((s : ScanShard) → In s db.shards → p s ≡ true → Update env db.drawn s (f s))
      → Change env db db'
  Change-modify {db} db' p f v e h same step = record {
    valid = record {
      keys = rw e (Distinct-modify shard_id p f same db.shards v.keys);
      ids = λ y m.
          let r = In-modify p f y db.shards (rw e at m) in
          let (k, l, q) = v.ids r.0 r.1 in (k, omega arith, id_kept y r.0 r.2 ∙ q);
    };
    drawn_le = h;
    kept = λ x m. (if p x then f x else x, rw e (In-modify_intro p f x db.shards m), if_id (p x) x);
    origin = λ y m. let r = In-modify p f y db.shards (rw e at m) in moved y r.0 r.1 r.2;
  }
    where
      if_id : (b : Bool) (x : ScanShard) → (if b then f x else x).id ≡ x.id
      if_id true x = same x
      if_id false x = refl

      id_kept : (y x : ScanShard) → (p x ≡ true) × (y ≡ f x) ⊎ (p x ≡ false) × (y ≡ x) → y.id ≡ x.id
      id_kept y x (inl (a, b)) = cc (same x)
      id_kept y x (inr (a, b)) = cc

      moved :
          (y x : ScanShard)
          → In x db.shards
          → (p x ≡ true) × (y ≡ f x) ⊎ (p x ≡ false) × (y ≡ x)
          → Origin env db.drawn db.shards y
      moved y x i (inl (a, b)) = rw b (earlier x i (next here (step x i a)))
      moved y x i (inr (a, b)) = rw b (earlier x i here)
