-- ===== src/Base/Listed.antt =====
-- Lists given by the value at each index.
use Prim.Native.Nat.{ℕ, zero, suc, ◌<◌}
use mathlib.Core.Path.{◌≡◌, refl, ap, ap₂}
use mathlib.Core.List.{List, [], ◌∷◌}
use native.Mathlib.Omega.{arith}
use mini_rtos.Base.Lists.{push_back}

module _ {ℓ} {A : Type ℓ} where
  abbrev pub listed : (ℕ → A) → ℕ → List A
  listed f zero = []
  listed f (suc n) = f 0 ∷ listed (λ i. f (suc i)) n

  pub listed-ext : (f g : ℕ → A) (n : ℕ) → ((i : ℕ) → i < n → f i ≡ g i) → listed f n ≡ listed g n
  listed-ext f g zero h = refl
  listed-ext f g (suc n) h =
      ap₂ (λ x xs. x ∷ xs) (h 0 (omega arith))
        (listed-ext (λ i. f (suc i)) (λ i. g (suc i)) n (λ i l. h (suc i) (omega arith)))

  pub listed-push_back : (f : ℕ → A) (n : ℕ) → listed f (suc n) ≡ push_back (listed f n) (f n)
  listed-push_back f zero = refl
  listed-push_back f (suc n) = ap (λ xs. f 0 ∷ xs) (listed-push_back (λ i. f (suc i)) n)
