-- ===== src/Model/Status.antt =====
-- models.py: the enumerations, each with its `==`.
use transport_lookout.Prelude.{ℕ, ◌≡◌, ◌↔◌, Bool, true, arith, Comparable, nat_beq}

pub data Role : Type 0 where
  platform_admin inventory_manager scan_operator auditor : Role

pub data RunStatus : Type 0 where
  queued running completed failed cancelled : RunStatus

pub data ShardStatus : Type 0 where
  queued leased running completed failed cancelled dead_letter : ShardStatus

abbrev role_index : Role → ℕ
role_index platform_admin = 0
role_index inventory_manager = 1
role_index scan_operator = 2
role_index auditor = 3

abbrev pub run_index : RunStatus → ℕ
run_index RunStatus.queued = 0
run_index RunStatus.running = 1
run_index RunStatus.completed = 2
run_index RunStatus.failed = 3
run_index RunStatus.cancelled = 4

abbrev pub shard_index : ShardStatus → ℕ
shard_index ShardStatus.queued = 0
shard_index ShardStatus.leased = 1
shard_index ShardStatus.running = 2
shard_index ShardStatus.completed = 3
shard_index ShardStatus.failed = 4
shard_index ShardStatus.cancelled = 5
shard_index ShardStatus.dead_letter = 6

abbrev pub role_beq : Role → Role → Bool
role_beq a b = nat_beq (role_index a) (role_index b)

abbrev pub run_beq : RunStatus → RunStatus → Bool
run_beq a b = nat_beq (run_index a) (run_index b)

abbrev pub shard_beq : ShardStatus → ShardStatus → Bool
shard_beq a b = nat_beq (shard_index a) (shard_index b)

pub role_beq_iff : (a b : Role) → (role_beq a b ≡ true) ↔ (a ≡ b)
role_beq_iff a b = ground arith

pub run_beq_iff : (a b : RunStatus) → (run_beq a b ≡ true) ↔ (a ≡ b)
run_beq_iff a b = ground arith

pub shard_beq_iff : (a b : ShardStatus) → (shard_beq a b ≡ true) ↔ (a ≡ b)
shard_beq_iff a b = ground arith

instance abbrev pub role_eq : Comparable Role
role_eq = record { same = role_beq; same_iff = role_beq_iff }

instance abbrev pub run_status_eq : Comparable RunStatus
run_status_eq = record { same = run_beq; same_iff = run_beq_iff }

instance abbrev pub shard_status_eq : Comparable ShardStatus
shard_status_eq = record { same = shard_beq; same_iff = shard_beq_iff }
