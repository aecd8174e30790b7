-- ===== src/Base/Sorted.antt =====
-- Lists of task numbers that are in order by a key.
use Prim.Native.Nat.{ℕ, ◌<◌}
use mathlib.Core.Path.{◌≡◌, refl, ap, ◌∙◌}
use mathlib.Core.Bool.{Bool, true, false}
use mathlib.Core.Logic.{inl, inr}
use mathlib.Core.Option.{Option, none, some}
use mathlib.Core.List.{List, [], ◌∷◌}
use native.Mathlib.Omega.{arith}
use mini_rtos.Base.Tests.{◌==◌, if◌then◌else◌, Bool-cases}
use mini_rtos.Base.Lists.{count, remove, insert_before, push_back, tail, first_such, insert_at}

abbrev pub AllOf : (ℕ → Type 0) → List ℕ → Type 0
AllOf P [] = Unit
AllOf P (x ∷ xs) = P x × AllOf P xs

-- Each entry stands in the relation to all later ones.
abbrev pub Sorted : (ℕ → ℕ → Type 0) → List ℕ → Type 0
Sorted R [] = Unit
Sorted R (x ∷ xs) = AllOf (R x) xs × Sorted R xs

pub AllOf-map :
    (P Q : ℕ → Type 0) (xs : List ℕ)
    → ((u : ℕ) → 0 < count u xs → P u → Q u)
    → AllOf P xs
    → AllOf Q xs
AllOf-map P Q [] f a = tt
AllOf-map P Q (x ∷ xs) f a =
    (f x (ground arith) a.0, AllOf-map P Q xs (λ u h. f u (ground arith)) a.1)

-- Two relations that agree on the list's members order it alike.
pub Sorted-frame :
    (R R' : ℕ → ℕ → Type 0) (xs : List ℕ)
    → ((u v : ℕ) → 0 < count u xs → 0 < count v xs → R u v → R' u v)
    → Sorted R xs
    → Sorted R' xs
Sorted-frame R R' [] f s = tt
Sorted-frame R R' (x ∷ xs) f s = (
  AllOf-map (R x) (R' x) xs (λ v h. f x v (ground arith) (ground arith)) s.0,
  Sorted-frame R R' xs (λ u v h l. f u v (ground arith) (ground arith)) s.1,
)

module _ (R : ℕ → ℕ → Type 0) where
  pub Sorted-tail : (xs : List ℕ) → Sorted R xs → Sorted R (tail xs)
  Sorted-tail [] s = tt
  Sorted-tail (x ∷ xs) s = s.1

  AllOf-remove : (P : ℕ → Type 0) (xs : List ℕ) (t : ℕ) → AllOf P xs → AllOf P (remove xs t)
  unfolding remove
  AllOf-remove P [] t a = tt
  AllOf-remove P (x ∷ xs) t a = elim (Bool-cases (x == t)) [
    | inl e ↦ rw e a.1
    | inr e ↦ rw e (a.0, AllOf-remove P xs t a.1)
  ]

  pub Sorted-remove : (xs : List ℕ) (t : ℕ) → Sorted R xs → Sorted R (remove xs t)
  unfolding remove
  Sorted-remove [] t s = tt
  Sorted-remove (x ∷ xs) t s = elim (Bool-cases (x == t)) [
    | inl e ↦ rw e s.1
    | inr e ↦ rw e (AllOf-remove (R x) xs t s.0, Sorted-remove xs t s.1)
  ]

  AllOf-push_back :
      (P : ℕ → Type 0) (xs : List ℕ) (t : ℕ) → AllOf P xs → P t → AllOf P (push_back xs t)
  AllOf-push_back P [] t a p = (p, tt)
  AllOf-push_back P (x ∷ xs) t a p = (a.0, AllOf-push_back P xs t a.1 p)

  pub Sorted-push_back :
      (xs : List ℕ) (t : ℕ) → Sorted R xs → AllOf (λ u. R u t) xs → Sorted R (push_back xs t)
  Sorted-push_back [] t s a = (tt, tt)
  Sorted-push_back (x ∷ xs) t s a =
      (AllOf-push_back (R x) xs t s.0 a.0, Sorted-push_back xs t s.1 a.1)

-- `t` in front of the first entry that passes the test, at the end where none does.
abbrev pub insert_sorted : (ℕ → Bool) → ℕ → List ℕ → List ℕ
insert_sorted stop t [] = t ∷ []
insert_sorted stop t (y ∷ ys) = if stop y then t ∷ y ∷ ys else y ∷ insert_sorted stop t ys

first_such-stops :
    (stop : ℕ → Bool) (xs : List ℕ) (p : ℕ) → first_such stop xs ≡ some p → stop p ≡ true
first_such-stops stop [] p e = absurd (ground arith)
first_such-stops stop (x ∷ xs) p e = elim (Bool-cases (stop x)) [
  | inl y ↦ ground (arith)
  | inr n ↦ first_such-stops stop xs p (ground arith)
]

insert_at-skip :
    (stop : ℕ → Bool) (t y : ℕ) (ys : List ℕ) (o : Option ℕ)
    → first_such stop ys ≡ o
    → stop y ≡ false
    → insert_at (y ∷ ys) o t ≡ y ∷ insert_at ys o t
unfolding insert_at insert_before
insert_at-skip stop t y ys none e n = refl
insert_at-skip stop t y ys (some p) e n = elim (Bool-cases (y == p)) [
  | inl s ↦ absurd (ground (arith, first_such-stops stop ys p e))
  | inr s ↦ ground arith
]

-- The walk and the insertion together.
pub insert_at-insert_sorted :
    (stop : ℕ → Bool) (t : ℕ) (xs : List ℕ)
    → insert_at xs (first_such stop xs) t ≡ insert_sorted stop t xs
unfolding insert_at insert_before
insert_at-insert_sorted stop t [] = refl
insert_at-insert_sorted stop t (y ∷ ys) = elim (Bool-cases (stop y)) [
  | inl s ↦ ground arith
  | inr n ↦ rw n (
      insert_at-skip stop t y ys (first_such stop ys) refl n
      ∙ ap (λ zs. y ∷ zs) (insert_at-insert_sorted stop t ys))
]

module _ (R : ℕ → ℕ → Type 0) (stop : ℕ → Bool) (t : ℕ) (before : (u : ℕ) → stop u ≡ false → R u t)
    (behind : (u : ℕ) → stop u ≡ true → R t u) (trans : (u v : ℕ) → R t u → R u v → R t v) where
  AllOf-insert_sorted :
      (P : ℕ → Type 0) (xs : List ℕ) → AllOf P xs → P t → AllOf P (insert_sorted stop t xs)
  AllOf-insert_sorted P [] a p = (p, tt)
  AllOf-insert_sorted P (x ∷ xs) a p = elim (Bool-cases (stop x)) [
    | inl e ↦ rw e (p, a)
    | inr e ↦ rw e (a.0, AllOf-insert_sorted P xs a.1 p)
  ]

  AllOf-trans : (u : ℕ) (xs : List ℕ) → R t u → AllOf (R u) xs → AllOf (R t) xs
  AllOf-trans u [] h a = tt
  AllOf-trans u (x ∷ xs) h a = (trans u x h a.0, AllOf-trans u xs h a.1)

  pub Sorted-insert_sorted : (xs : List ℕ) → Sorted R xs → Sorted R (insert_sorted stop t xs)
  Sorted-insert_sorted [] s = (tt, tt)
  Sorted-insert_sorted (x ∷ xs) s = elim (Bool-cases (stop x)) [
    | inl e ↦ rw e ((behind x e, AllOf-trans x xs (behind x e) s.0), s)
    | inr e ↦ rw e (AllOf-insert_sorted (R x) xs s.0 (before x e), Sorted-insert_sorted xs s.1)
  ]

  pub Sorted-insert_at :
      (xs : List ℕ) → Sorted R xs → Sorted R (insert_at xs (first_such stop xs) t)
  Sorted-insert_at xs s = rw (insert_at-insert_sorted stop t xs) (Sorted-insert_sorted xs s)
