-- ===== src/Base/Bits.antt =====
-- Eight-bit masks: laws read off tables of all values.
use Prim.Native.Nat.{ℕ, zero, suc, ◌-◌, ◌%◌, ◌^◌, ◌<◌, bit_and, bit_or}
use mathlib.Core.Path.{◌≡◌, refl}
use mathlib.Core.Bool.{Bool, true, false, ◌&&◌, ◌||◌, not}
use mathlib.Core.Logic.{inl, inr}
use native.Mathlib.Omega.{arith}
use mini_rtos.Base.Tests.{◌==◌, ltb, Bool-cases, if◌then◌else◌}

-- (uint8_t)(1U << priority)
unfoldable pub priority_mask : ℕ → ℕ
priority_mask priority = 2 ^ priority % 256

-- bitmap & mask != 0
unfoldable pub has_bit : ℕ → ℕ → Bool
unfolding priority_mask
has_bit bitmap priority = not (bit_and bitmap (priority_mask priority) == 0)

-- bitmap |= mask
unfoldable pub set_bit : ℕ → ℕ → ℕ
unfolding priority_mask
set_bit bitmap priority = bit_or bitmap (priority_mask priority)

-- bitmap &= (uint8_t)~mask
unfoldable pub clear_bit : ℕ → ℕ → ℕ
unfolding priority_mask
clear_bit bitmap priority = bit_and bitmap (255 - priority_mask priority)

-- Whether the test passes at every value under the bound.
tabulated : (ℕ → Bool) → (bound : ℕ) → Bool
tabulated test zero = true
tabulated test (suc bound) = if test bound then tabulated test bound else false

read_table :
    (test : ℕ → Bool) {bound : ℕ}
    → tabulated test bound ≡ true
    → {x : ℕ} → x < bound
    → test x ≡ true
unfolding tabulated
read_table test {bound = zero} table lt = absurd (omega arith)
read_table test {bound = suc bound} table {x = x} lt = elim (Bool-cases (x == bound)) [
  | inl e ↦ ground arith
  | inr n ↦ read_table test {bound = bound} (ground arith) (ground arith)
]

abbrev eqb : Bool → Bool → Bool
eqb true b = b
eqb false b = not b

eqb_to_path : (a b : Bool) → eqb a b ≡ true → a ≡ b
eqb_to_path a b h = ground arith

set_test : ℕ → ℕ → ℕ → Bool
set_test b p q = eqb (has_bit (set_bit b p) q) ((p == q) || has_bit b q) && ltb (set_bit b p) 256

clear_test : ℕ → ℕ → ℕ → Bool
clear_test b p q =
    eqb (has_bit (clear_bit b p) q) (not (p == q) && has_bit b q) && ltb (clear_bit b p) 256

set_table : tabulated (λ b. tabulated (λ p. tabulated (set_test b p) 8) 8) 256 ≡ true
unfolding tabulated set_test has_bit set_bit
set_table = refl

clear_table : tabulated (λ b. tabulated (λ p. tabulated (clear_test b p) 8) 8) 256 ≡ true
unfolding tabulated clear_test has_bit clear_bit
clear_table = refl

module _ (b p q : ℕ) (hb : b < 256) (hp : p < 8) (hq : q < 8) where
  set_test_holds : set_test b p q ≡ true
  set_test_holds =
      read_table (set_test b p)
        (read_table (λ p. tabulated (set_test b p) 8)
          (read_table (λ b. tabulated (λ p. tabulated (set_test b p) 8) 8) set_table hb) hp)
        hq

  clear_test_holds : clear_test b p q ≡ true
  clear_test_holds =
      read_table (clear_test b p)
        (read_table (λ p. tabulated (clear_test b p) 8)
          (read_table (λ b. tabulated (λ p. tabulated (clear_test b p) 8) 8) clear_table hb) hp)
        hq

  pub has_bit-set_bit : has_bit (set_bit b p) q ≡ ((p == q) || has_bit b q)
  unfolding set_test
  has_bit-set_bit = eqb_to_path _ _ (ground (arith, set_test_holds))

  pub has_bit-clear_bit : has_bit (clear_bit b p) q ≡ (not (p == q) && has_bit b q)
  unfolding clear_test
  has_bit-clear_bit = eqb_to_path _ _ (ground (arith, clear_test_holds))

  pub set_bit-lt : set_bit b p < 256
  unfolding set_test
  set_bit-lt = ground (arith, set_test_holds)

  pub clear_bit-lt : clear_bit b p < 256
  unfolding clear_test
  clear_bit-lt = ground (arith, clear_test_holds)

has_bit_zero_table : tabulated (λ q. not (has_bit 0 q)) 8 ≡ true
unfolding tabulated has_bit
has_bit_zero_table = refl

pub has_bit-zero : (q : ℕ) → q < 8 → has_bit 0 q ≡ false
has_bit-zero q h = ground (arith, read_table (λ q. not (has_bit 0 q)) has_bit_zero_table h)
