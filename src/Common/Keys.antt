-- ===== src/Common/Keys.antt =====
-- Keys of maps: a decidable equality, and an order for tables that keep their rows sorted.
use Prim.Native.Nat.{ℕ}
use mathlib.Core.Path.{◌≡◌, refl}
use mathlib.Core.Logic.{◌↔◌}
use mathlib.Core.Bool.{Bool, true, false, ◌&&◌, ◌||◌}
use native.Mathlib.Omega.{arith}
use shiro_distributed_system.Common.Tests.{ltb, nat_eq, nat_eq_iff}
use shiro_distributed_system.Common.Strings.{Text, text_eq, text_eq_iff}

-- `before` says where a new entry goes; a map that keeps no order answers `false`.
pub record Key (A : Type 0) : Type 0 where
  pub beq : A → A → Bool
  pub beq_iff : (a b : A) → (beq a b ≡ true) ↔ (a ≡ b)
  pub before : A → A → Bool

instance abbrev pub text_key : Key Text
text_key = record { beq = text_eq; beq_iff = text_eq_iff; before = λ _ _. false }

instance abbrev pub nat_key : Key ℕ
nat_key = record { beq = nat_eq; beq_iff = nat_eq_iff; before = ltb }

pub beq_refl : {A : Type 0} ⦃k : Key A⦄ (a : A) → k.beq a a ≡ true
beq_refl ⦃k⦄ a = (k.beq_iff a a).1 refl

-- A compound key is ordered by its first part, then by its second.
module _ {A B : Type 0} where
  abbrev pub pair_beq : Key A → Key B → A × B → A × B → Bool
  pair_beq k l p q = k.beq p.0 q.0 && l.beq p.1 q.1

  pub pair_beq_iff : (k : Key A) (l : Key B) (p q : A × B) → (pair_beq k l p q ≡ true) ↔ (p ≡ q)
  pair_beq_iff k l p q = ground (arith, k.beq_iff p.0 q.0, l.beq_iff p.1 q.1)

  abbrev pub pair_key : Key A → Key B → Key (A × B)
  pair_key k l = record {
    beq = pair_beq k l;
    beq_iff = pair_beq_iff k l;
    before = λ p q. k.before p.0 q.0 || (k.beq p.0 q.0 && l.before p.1 q.1);
  }
