-- ===== src/System/Terminal.antt =====
-- A shard that has reached a terminal state stays as it is.
use transport_lookout.Prelude.{ℕ, ◌≡◌, refl, sym, subst, ◌∙◌, true, arith, In, Distinct-In}
use transport_lookout.Config.{Env, NoRepeat}
use transport_lookout.Model.{Db, ScanShard}
use transport_lookout.Finalize.{is_terminal}
use transport_lookout.Shard.{
  Update, leases, binds, requeues, claims, beats, releases, cancels, Updates, here, next, Origin,
  earlier, created, Updates-id,
}
use transport_lookout.Shard.Change.{IsValid, shard_id}
use transport_lookout.System.{Reach, Reach-Change}

module _ {env : Env} where
  -- No update is made to a terminal row.
  Update-terminal :
      {floor : ℕ} {s t : ScanShard} → Update env floor s t → is_terminal s.status ≡ true → ⊥
  Update-terminal (leases s now n h e) w = ground arith
  Update-terminal (binds s n h e) w = ground arith
  Update-terminal (requeues s e) w = ground arith
  Update-terminal (claims s now worker e) w = ground arith
  Update-terminal (beats s now e) w = ground arith
  Update-terminal (releases s status values e r) w = ground arith
  Update-terminal (cancels s e) w = ground arith

  Updates-terminal :
      {floor : ℕ} {s t : ScanShard} → Updates env floor s t → is_terminal s.status ≡ true → t ≡ s
  Updates-terminal here w = refl
  Updates-terminal {s = s} (next {t} us u) w =
      let e = Updates-terminal us w in
      absurd (Update-terminal u (subst (λ (x : ScanShard). is_terminal x.status ≡ true) (sym e) w))

  module _ (fresh : NoRepeat env) {db db' : Db} (v : IsValid env db) (r : Reach env db db') where
    -- With identifiers that do not repeat, from a valid database: whatever the processes do, the row of
    -- a shard in a terminal state is, unchanged, a row of every later table.
    pub terminal_forever :
        (s : ScanShard) → In s db.shards → is_terminal s.status ≡ true → In s db'.shards
    terminal_forever s m w =
        let c = Reach-Change fresh v r in
        let (y, i, e) = c.kept s m in
        subst (λ (x : ScanShard). In x db'.shards) (same y e (c.origin y i)) i
      where
        same : (y : ScanShard) → y.id ≡ s.id → Origin env db.drawn db.shards y → y ≡ s
        same y e (earlier x j us) =
            let k = Distinct-In shard_id x s db.shards v.keys j m (sym (Updates-id us) ∙ e) in
            Updates-terminal us (subst (λ (z : ScanShard). is_terminal z.status ≡ true) (sym k) w)
            ∙ k
        same y e (created n run_id cidr zone l us) =
            let (k, lt, q) = v.ids s m in
            absurd (omega (arith, fresh n k (sym (Updates-id us) ∙ e ∙ q)))
