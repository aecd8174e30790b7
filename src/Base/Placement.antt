-- ===== src/Base/Placement.antt =====
-- Where an ordered insertion puts its entry: the list is cut in two.
use Prim.Native.Nat.{ℕ, ◌<◌}
use mathlib.Core.Path.{◌≡◌, refl, ap}
use mathlib.Core.Bool.{Bool, true, false}
use mathlib.Core.Logic.{inl, inr}
use mathlib.Core.List.{List, [], ◌∷◌, ◌++◌}
use native.Mathlib.Omega.{arith}
use mini_rtos.Base.Tests.{◌==◌, Bool-cases}
use mini_rtos.Base.Lists.{count, first_such, insert_at}
use mini_rtos.Base.Sorted.{AllOf, Sorted, insert_sorted, insert_at-insert_sorted}

-- `ys` is `xs` with `t` behind all entries that fail the test and in front of all that pass it.
abbrev pub Placed : (ℕ → Bool) → ℕ → (xs ys : List ℕ) → Type 0
Placed stop t xs ys =
    (front : List ℕ) × (rest : List ℕ) × (xs ≡ front ++ rest)
    × (ys ≡ front ++ t ∷ rest)
    × AllOf (λ u. stop u ≡ false) front
    × AllOf (λ u. stop u ≡ true) rest

-- A member of a list has what all of its entries have.
pub AllOf-member : (P : ℕ → Type 0) (xs : List ℕ) (v : ℕ) → 0 < count v xs → AllOf P xs → P v
AllOf-member P [] v h a = absurd (ground arith)
AllOf-member P (x ∷ xs) v h a = elim (Bool-cases (x == v)) [
  | inl e ↦ ground (arith, a.0)
  | inr n ↦ AllOf-member P xs v (ground arith) a.1
]

module _ (R : ℕ → ℕ → Type 0) (stop : ℕ → Bool) (t : ℕ)
    (onward : (u v : ℕ) → stop u ≡ true → R u v → stop v ≡ true) where
  onward_all :
      (u : ℕ) (xs : List ℕ) → stop u ≡ true → AllOf (R u) xs → AllOf (λ v. stop v ≡ true) xs
  onward_all u [] h a = tt
  onward_all u (x ∷ xs) h a = (onward u x h a.0, onward_all u xs h a.1)

  insert_sorted-Placed : (xs : List ℕ) → Sorted R xs → Placed stop t xs (insert_sorted stop t xs)
  insert_sorted-Placed [] s = ([], [], refl, refl, tt, tt)
  insert_sorted-Placed (x ∷ xs) s = elim (Bool-cases (stop x)) [
    | inl y ↦ rw y ([], x ∷ xs, refl, refl, tt, (y, onward_all x xs y s.0))
    | inr n ↦
        let (front, rest, old, new, low, high) = insert_sorted-Placed xs s.1 in
        rw n (x ∷ front, rest, ap (λ zs. x ∷ zs) old, ap (λ zs. x ∷ zs) new, (n, low), high)
  ]

  pub insert_at-Placed :
      (xs : List ℕ) → Sorted R xs → Placed stop t xs (insert_at xs (first_such stop xs) t)
  insert_at-Placed xs s = rw (insert_at-insert_sorted stop t xs) (insert_sorted-Placed xs s)
