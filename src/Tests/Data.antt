-- ===== src/Tests/Data.antt =====
-- A run of two shards and a finished one, in a database that has drawn ten identifiers.
use transport_lookout.Prelude.{
  ℕ, zero, suc, ◌<◌, String, ◌≡◌, ◌≢◌, refl, ap, true, none, some, [], ◌∷◌, arith, In, inl, inr,
  length,
}
use transport_lookout.Config.{Env, default_settings, NoRepeat}
use transport_lookout.Model.{
  Db, empty, InventoryScope, ScanProfile, ScanRun, ScanShard, RunStatus, ShardStatus, new_shard,
}
use transport_lookout.Outbox.{Broker}
use transport_lookout.Cidr.Ipv4.{codes}
use transport_lookout.Shard.Change.{IsValid, shard_id}

-- "u", "uu", "uuu", …
abbrev pub token : ℕ → String
token zero = "u"
token (suc n) = String.◌∷◌ "u" (token n)

length-token : (n : ℕ) → length (codes (token n)) ≡ suc n
length-token zero = refl
length-token (suc n) = ap suc (length-token n)

abbrev pub env : Env
env = record {
  settings = default_settings;
  uuid4 = token;
  collate = λ a b. true;
  set_order = λ xs. xs;
  repr = λ x. x;
}

pub token-injective : (m n : ℕ) → token m ≡ token n → m ≡ n
token-injective m n e =
    omega (arith, length-token m, length-token n, ap (λ (s : String). length (codes s)) e)

pub env-NoRepeat : NoRepeat env
env-NoRepeat = token-injective

pub token-ne : (m n : ℕ) → m ≢ n → token m ≢ token n
token-ne m n h e = h (token-injective m n e)

abbrev pub accepting : Broker
accepting event = none

abbrev pub scope : InventoryScope
scope = record {
  id = "scope";
  name = "lab";
  cidr = "10.0.0.0/23";
  zone = "default";
  approved = true;
}

abbrev pub profile : ScanProfile
profile = record {
  id = "profile";
  name = "web";
  version = 1;
  ports = "443";
  arguments = "-sV -n";
  max_rate = 500;
  scanner_mode = "nmap";
  max_concurrent_shards = 2;
  timeout_seconds = 1800;
  zone = "default";
}

abbrev pub run : ScanRun
run = record {
  id = "run";
  inventory_scope_id = "scope";
  profile_id = "profile";
  status = RunStatus.running;
  requested_by = "op";
  created_at = 10;
  started_at = some 20;
  completed_at = none;
}

abbrev pub leased_shard : ScanShard
leased_shard = record (new_shard (token 1) "run" "10.0.0.0/24" "default") {
  status = ShardStatus.leased;
  lease_token = some (token 5);
  lease_expires_at = some 100;
}

abbrev pub queued_shard : ScanShard
queued_shard = new_shard (token 2) "run" "10.0.1.0/24" "default"

abbrev pub done_shard : ScanShard
done_shard = record (new_shard (token 3) "old" "10.0.2.0/24" "default") {
  status = ShardStatus.completed;
  attempts = 1;
}

abbrev pub db : Db
db = record empty {
  scopes = scope ∷ [];
  profiles = profile ∷ [];
  runs = run ∷ [];
  shards = leased_shard ∷ queued_shard ∷ done_shard ∷ [];
  drawn = 10;
}

pub db-IsValid : IsValid env db
db-IsValid = record {
  keys = (
    (token-ne 1 2 (omega arith), (token-ne 1 3 (omega arith), tt)),
    ((token-ne 2 3 (omega arith), tt), (tt, tt)),
  );
  ids = λ s. drawn_id s;
}
  where
    drawn_id : (s : ScanShard) → In s db.shards → (k : ℕ) × (k < 10) × (s.id ≡ token k)
    drawn_id s (inl e) = (1, omega arith, ap shard_id e)
    drawn_id s (inr (inl e)) = (2, omega arith, ap shard_id e)
    drawn_id s (inr (inr (inl e))) = (3, omega arith, ap shard_id e)
    drawn_id s (inr (inr (inr n))) = absurd n
