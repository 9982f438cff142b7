-- ===== src/Base/Ordering.antt =====
-- The order and equality tests that sorting and membership use.
use Prim.Native.Nat.{ℕ}
use mathlib.Core.Path.{◌≡◌}
use mathlib.Core.Logic.{◌↔◌}
use mathlib.Core.Bool.{Bool, true, false}
use native.Mathlib.Omega.{arith}
use kota.Base.Tests.{leb as nat_leb, ◌==◌ as nat_beq, ==_iff}

-- `Ord` with `Eq`: a total order whose equality is that of the type.
pub record Order {ℓ} (A : Type ℓ) : Type ℓ where
  pub beq : A → A → Bool
  pub leb : A → A → Bool
  pub beq_iff : (a b : A) → (beq a b ≡ true) ↔ (a ≡ b)
  pub leb_total : (a b : A) → leb a b ≡ false → leb b a ≡ true
  pub leb_trans : (a b c : A) → leb a b ≡ true → leb b c ≡ true → leb a c ≡ true
  pub leb_antisymm : (a b : A) → leb a b ≡ true → leb b a ≡ true → a ≡ b

pub nat_leb_total : (a b : ℕ) → nat_leb a b ≡ false → nat_leb b a ≡ true
nat_leb_total a b h = ground arith

pub nat_leb_trans : (a b c : ℕ) → nat_leb a b ≡ true → nat_leb b c ≡ true → nat_leb a c ≡ true
nat_leb_trans a b c h k = ground arith

pub nat_leb_antisymm : (a b : ℕ) → nat_leb a b ≡ true → nat_leb b a ≡ true → a ≡ b
nat_leb_antisymm a b h k = ground arith

instance abbrev pub nat_order : Order ℕ
nat_order = record {
  beq = nat_beq;
  leb = nat_leb;
  beq_iff = ==_iff;
  leb_total = nat_leb_total;
  leb_trans = nat_leb_trans;
  leb_antisymm = nat_leb_antisymm;
}
