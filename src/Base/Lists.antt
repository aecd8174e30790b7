-- ===== src/Base/Lists.antt =====
-- Sequences of task numbers: what the lists of os_list.c stand for.
use Prim.Native.Nat.{ℕ, zero, suc, ◌+◌, ◌<◌}
use mathlib.Core.Path.{◌≡◌, refl}
use mathlib.Core.Bool.{Bool, true, false, ◌||◌}
use mathlib.Core.Logic.{◌⊎◌, inl, inr}
use mathlib.Core.Option.{Option, none, some}
use mathlib.Core.List.{List, [], ◌∷◌, ◌++◌}
use native.Mathlib.Omega.{arith}
use mini_rtos.Base.Tests.{◌==◌, if◌then◌else◌}

module _ {ℓ} {A : Type ℓ} where
  abbrev pub length : List A → ℕ
  length [] = 0
  length (x ∷ xs) = suc (length xs)

  abbrev pub head? : List A → Option A
  head? [] = none
  head? (x ∷ xs) = some x

  abbrev pub tail : List A → List A
  tail [] = []
  tail (x ∷ xs) = xs

  abbrev pub is_empty : List A → Bool
  is_empty [] = true
  is_empty (x ∷ xs) = false

  -- A `for` loop: `body` once for each index of the list, in its order.
  abbrev pub for_each {κ} : {S : Type κ} → List A → (A → S → S) → S → S
  for_each [] body s = s
  for_each (i ∷ is) body s = for_each is body (body i s)

  -- A loop keeps what each round keeps.
  pub for_each_keeps {κ μ} :
      {S : Type κ} (P : S → Type μ) (is : List A) (body : A → S → S)
      → ((i : A) (s : S) → P s → P (body i s))
      → {s : S} → P s
      → P (for_each is body s)
  for_each_keeps P [] body keep p = p
  for_each_keeps P (i ∷ is) body keep {s} p = for_each_keeps P is body keep (keep i s p)

  abbrev pub drop : ℕ → List A → List A
  drop zero xs = xs
  drop (suc n) [] = []
  drop (suc n) (x ∷ xs) = drop n xs

  abbrev pub replicate : ℕ → A → List A
  replicate zero a = []
  replicate (suc n) a = a ∷ replicate n a

  abbrev pub push_back : List A → A → List A
  push_back xs x = xs ++ x ∷ []

  pub length-append : (xs ys : List A) → length (xs ++ ys) ≡ length xs + length ys
  length-append [] ys = omega arith
  length-append (x ∷ xs) ys = omega (arith, length-append xs ys)

pub List-cases {ℓ} :
    {A : Type ℓ} (xs : List A) → (xs ≡ []) ⊎ ((x : A) × (r : List A) × (xs ≡ x ∷ r))
List-cases [] = inl refl
List-cases (x ∷ xs) = inr (x, xs, refl)

-- `start`, `start + 1` and so on, `n` numbers.
abbrev pub count_up : ℕ → ℕ → List ℕ
count_up start zero = []
count_up start (suc n) = start ∷ count_up (start + 1) n

-- The loop `for (index = 0; index < n; index++)`.
abbrev pub indices : ℕ → List ℕ
indices n = count_up 0 n

abbrev pub contains : List ℕ → ℕ → Bool
contains [] x = false
contains (y ∷ ys) x = (y == x) || contains ys x

abbrev pub count : ℕ → List ℕ → ℕ
count x [] = 0
count x (y ∷ ys) = (if y == x then 1 else 0) + count x ys

-- Puts `x` in front of the first `position`; behind the last where there is none.
unfoldable pub insert_before : List ℕ → ℕ → ℕ → List ℕ
insert_before [] position x = x ∷ []
insert_before (y ∷ ys) position x =
    if y == position then x ∷ y ∷ ys else y ∷ insert_before ys position x

-- The walk to the first entry that passes a test.
abbrev pub first_such : (ℕ → Bool) → List ℕ → Option ℕ
first_such stop [] = none
first_such stop (y ∷ ys) = if stop y then some y else first_such stop ys

-- os_ListInsertBefore at the node found, os_ListPushBack where the walk fell off the end
unfoldable pub insert_at : List ℕ → Option ℕ → ℕ → List ℕ
insert_at xs none t = push_back xs t
insert_at xs (some position) t = insert_before xs position t

-- Takes out the first `x`.
unfoldable pub remove : List ℕ → ℕ → List ℕ
remove [] x = []
remove (y ∷ ys) x = if y == x then ys else y ∷ remove ys x

pub count-append : (x : ℕ) (xs ys : List ℕ) → count x (xs ++ ys) ≡ count x xs + count x ys
count-append x [] ys = omega arith
count-append x (y ∷ xs) ys = omega (arith, count-append x xs ys)

pub count-push_back :
    (x : ℕ) (xs : List ℕ) (y : ℕ)
    → count x (push_back xs y) ≡ count x xs + (if y == x then 1 else 0)
count-push_back x xs y = omega (arith, count-append x xs (y ∷ []))

pub count-insert_before :
    (x : ℕ) (xs : List ℕ) (p y : ℕ)
    → count x (insert_before xs p y) ≡ count x xs + (if y == x then 1 else 0)
unfolding insert_before
count-insert_before x [] p y = omega arith
count-insert_before x (z ∷ xs) p y = ground (arith, count-insert_before x xs p y)

-- Taking out a member lowers its count by one, and no other.
pub count-remove :
    (x : ℕ) (xs : List ℕ) (y : ℕ)
    → 0 < count y xs
    → count x (remove xs y) + (if y == x then 1 else 0) ≡ count x xs
unfolding remove
count-remove x [] y h = absurd (omega arith)
count-remove x (z ∷ xs) y h = ground (arith, count-remove x xs y)

pub count-insert_at :
    (x : ℕ) (xs : List ℕ) (position : Option ℕ) (t : ℕ)
    → count x (insert_at xs position t) ≡ count x xs + (if t == x then 1 else 0)
unfolding insert_at
count-insert_at x xs none t = count-push_back x xs t
count-insert_at x xs (some p) t = count-insert_before x xs p t
