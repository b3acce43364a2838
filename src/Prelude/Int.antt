-- ===== src/Prelude/Int.antt =====
-- Python's integers, where they may be negative, and the bounds of query parameters.
use Prim.Native.Nat.{ℕ, zero, suc, min, max}
use mathlib.Core.Path.{◌≡◌, ap}
use mathlib.Core.Logic.{◌↔◌}
use mathlib.Core.Bool.{Bool, true, false}
use transport_lookout.Prelude.Tests.{Comparable, nat_beq, nat_beq_iff, leb}

-- `negsuc n` is -(n + 1).
pub data ℤ : Type 0 where
  pos : ℕ → ℤ
  negsuc : ℕ → ℤ

abbrev pub negated : ℕ → ℤ
negated zero = pos 0
negated (suc n) = negsuc n

abbrev pub int_beq : ℤ → ℤ → Bool
int_beq (pos m) (pos n) = nat_beq m n
int_beq (pos m) (negsuc n) = false
int_beq (negsuc m) (pos n) = false
int_beq (negsuc m) (negsuc n) = nat_beq m n

abbrev pub int_le : ℤ → ℤ → Bool
int_le (pos m) (pos n) = leb m n
int_le (pos m) (negsuc n) = false
int_le (negsuc m) (pos n) = true
int_le (negsuc m) (negsuc n) = leb n m

abbrev magnitude : ℤ → ℕ
magnitude (pos n) = n
magnitude (negsuc n) = n

pub int_beq_iff : (a b : ℤ) → (int_beq a b ≡ true) ↔ (a ≡ b)
int_beq_iff (pos m) (pos n) =
    (λ h. ap pos ((nat_beq_iff m n).0 h), λ e. (nat_beq_iff m n).1 (ap magnitude e))
int_beq_iff (pos m) (negsuc n) = (λ h. absurd (cc), λ e. absurd (cc))
int_beq_iff (negsuc m) (pos n) = (λ h. absurd (cc), λ e. absurd (cc))
int_beq_iff (negsuc m) (negsuc n) =
    (λ h. ap negsuc ((nat_beq_iff m n).0 h), λ e. (nat_beq_iff m n).1 (ap magnitude e))

instance abbrev pub int_eq : Comparable ℤ
int_eq = record { same = int_beq; same_iff = int_beq_iff }

-- `max(k, bound)` for a bound of at least 0
abbrev pub at_least : ℕ → ℤ → ℕ
at_least bound (pos n) = max n bound
at_least bound (negsuc n) = bound

-- `min(max(k, 1), most)`
abbrev pub clamp : ℕ → ℤ → ℕ
clamp most k = min (at_least 1 k) most
