-- ===== src/Mutex/Inherit.antt =====
-- What the passes of os_MutexWaitersChanged compute.
use mathlib.Core.Path.{subst}
use mini_rtos.Base.{
  ℕ, zero, suc, ◌≤◌, ◌<◌, ◌≡◌, refl, ◌∙◌, Bool, true, false, ◌&&◌, Option, none, some, List, [],
  ◌∷◌, ltb, ◌==◌, if◌then◌else◌, arith, count, for_each, for_each_keeps, indices, if_both,
  Bool-cases, inl, inr, update,
}
use mini_rtos.Base.Placement.{AllOf-member}
use mini_rtos.Base.Sorted.{AllOf}
use mini_rtos.Kernel.{Kernel, max_mutexes}
use mini_rtos.Mutex.{highest_waiter, inherit_to, inherit_pass, inherit_passes, mutex_waiters}

highest_waiter-inherited : (desired : ℕ → ℕ) (xs : List ℕ) (i : ℕ) → i ≤ highest_waiter desired xs i
unfolding highest_waiter
highest_waiter-inherited desired [] i = omega arith
highest_waiter-inherited desired (x ∷ xs) i =
    let j = if ltb i (desired x) then desired x else i in
    ground (arith, highest_waiter-inherited desired xs j)

highest_waiter-member :
    (desired : ℕ → ℕ) (xs : List ℕ) (i u : ℕ)
    → 0 < count u xs
    → desired u ≤ highest_waiter desired xs i
unfolding highest_waiter
highest_waiter-member desired [] i u h = absurd (ground arith)
highest_waiter-member desired (x ∷ xs) i u h =
    let j = if ltb i (desired x) then desired x else i in
    elim (Bool-cases (x == u)) [
      | inl e ↦ ground (arith, highest_waiter-inherited desired xs j)
      | inr n ↦ ground (arith, highest_waiter-member desired xs j u)
    ]

-- No waiter of the mutex is to have a higher priority than its owner.
abbrev pub NoInversion : Kernel → (ℕ → ℕ) → ℕ → Type 0
NoInversion k desired m =
    (o u : ℕ)
    → (k.mutexes m).used ≡ true
    → (k.mutexes m).owner ≡ some o
    → 0 < count u (k.waiters (mutex_waiters m))
    → desired u ≤ desired o

abbrev Unchanged : Kernel → (ℕ → ℕ) → Bool → ℕ → (ℕ → ℕ) × Bool → Type 0
Unchanged k desired changed m s =
    s.1 ≡ false → (s.0 ≡ desired) × (changed ≡ false) × NoInversion k desired m

inherit_to-Unchanged :
    (k : Kernel) (m : ℕ) (owner : Option ℕ) (desired : ℕ → ℕ) (changed : Bool)
    → (k.mutexes m).owner ≡ owner
    → Unchanged k desired changed m (inherit_to k m owner (desired, changed))
unfolding inherit_to
inherit_to-Unchanged k m none desired changed e = λ f. (refl, f, λ o u a b h. absurd (ground arith))
inherit_to-Unchanged k m (some o) desired changed e =
    let xs = k.waiters (mutex_waiters m) in
    if_both (Unchanged k desired changed m)
      ((k.mutexes m).used && ltb (desired o) (highest_waiter desired xs (desired o)))
      (λ y f. absurd (ground arith))
      (λ n f. (
        refl,
        f,
        λ p u a b h. ground (arith, n, e, highest_waiter-member desired xs (desired o) u h),
      ))

abbrev round : Kernel → ℕ → (ℕ → ℕ) × Bool → (ℕ → ℕ) × Bool
round k m s = inherit_to k m (k.mutexes m).owner s

rounds-unchanged :
    (k : Kernel) (is : List ℕ) (desired : ℕ → ℕ) (changed : Bool)
    → (for_each is (round k) (desired, changed)).1 ≡ false
    → ((for_each is (round k) (desired, changed)).0 ≡ desired)
      × (changed ≡ false)
      × AllOf (NoInversion k desired) is
rounds-unchanged k [] desired changed f = (refl, f, tt)
rounds-unchanged k (m ∷ is) desired changed f =
    let s = round k m (desired, changed) in
    let (same, unchanged, stable) = rounds-unchanged k is s.0 s.1 f in
    let (kept, before, here) =
      inherit_to-Unchanged k m (k.mutexes m).owner desired changed refl unchanged in
    (same ∙ kept, before, (here, subst (λ d. AllOf (NoInversion k d) is) kept stable))

-- Where a pass of os_MutexWaitersChanged reports no change, it left the desired priorities as
-- they were, and for each of the mutexes in use no waiter's desired priority is above its
-- owner's.
pub inherit_pass-NoInversion :
    (k : Kernel) (desired : ℕ → ℕ) (m : ℕ)
    → (inherit_pass k desired).1 ≡ false
    → m < max_mutexes
    → ((inherit_pass k desired).0 ≡ desired) × NoInversion k desired m
unfolding inherit_pass
inherit_pass-NoInversion k desired m f h =
    let (same, before, stable) = rounds-unchanged k (indices max_mutexes) desired false f in
    (same, AllOf-member (NoInversion k desired) (indices max_mutexes) m (ground arith) stable)

-- The second map is nowhere below the first.
abbrev pub AtLeast : (ℕ → ℕ) → (ℕ → ℕ) → Type 0
AtLeast f g = (t : ℕ) → f t ≤ g t

abbrev AtLeastAfter : (ℕ → ℕ) → (ℕ → ℕ) × Bool → Type 0
AtLeastAfter f s = AtLeast f s.0

inherit_to-AtLeast :
    (k : Kernel) (m : ℕ) (owner : Option ℕ) (f : ℕ → ℕ) (s : (ℕ → ℕ) × Bool)
    → AtLeastAfter f s
    → AtLeastAfter f (inherit_to k m owner s)
unfolding inherit_to
inherit_to-AtLeast k m none f (desired, changed) a = a
inherit_to-AtLeast k m (some o) f (desired, changed) a =
    let inherited = highest_waiter desired (k.waiters (mutex_waiters m)) (desired o) in
    if_both (AtLeastAfter f) ((k.mutexes m).used && ltb (desired o) inherited)
      {x = (update desired o inherited, true)} {y = (desired, changed)}
      (λ y t. ground (arith, a t, a o)) (λ n. a)

inherit_pass-AtLeast :
    (k : Kernel) (f desired : ℕ → ℕ) → AtLeast f desired → AtLeastAfter f (inherit_pass k desired)
unfolding inherit_pass
inherit_pass-AtLeast k f desired a =
    for_each_keeps (AtLeastAfter f) (indices max_mutexes) (round k)
      (λ m s. inherit_to-AtLeast k m (k.mutexes m).owner f s) {s = (desired, false)} a

-- Whatever the number of passes, the desired priorities that os_MutexWaitersChanged computes are
-- nowhere below any bound that those it starts from are nowhere below, such as the base
-- priorities.
pub inherit_passes-AtLeast :
    (n : ℕ) (k : Kernel) (f desired : ℕ → ℕ)
    → AtLeast f desired
    → AtLeast f (inherit_passes n k desired)
unfolding inherit_passes
inherit_passes-AtLeast zero k f desired a = a
inherit_passes-AtLeast (suc n) k f desired a =
    let next = inherit_pass-AtLeast k f desired a in
    if_both (AtLeast f) (inherit_pass k desired).1
      (λ _. inherit_passes-AtLeast n k f (inherit_pass k desired).0 next) (λ _. next)
