-- ===== src/Validate/Tasks.antt =====
-- What the last pass of os_KernelValidate has seen when it ends without a fault.
use mini_rtos.Base.{
  ℕ, ◌+◌, ◌≤◌, ◌<◌, ◌≡◌, refl, Bool, true, false, ◌&&◌, ◌||◌, not, Option, none, some, List, [],
  ◌∷◌, ◌==◌, inl, inr, arith, count, if◌then◌else◌, Bool-cases, sym, ◌∙◌,
}
use mini_rtos.Kernel.{
  TaskState, Kernel, unused, ready, running, blocked_delay, blocked_object, terminated, is_ready,
  is_running,
}
use mini_rtos.Validate.{
  try_each, priorities_valid, check_state, is_unused, check_task, check_unused, check_used,
}
use mini_rtos.Validate.Walks.{and_then-some}

-- What the walk finds of the TCB of `t`, whose nodes it met `in_ready` and `in_delay` times
pub record TaskFound (k : Kernel) (in_ready in_delay t : ℕ) : Type 0 where
  pub own_id : (k.tasks t).id ≡ t
  pub free :
      is_unused (k.tasks t).state ≡ true
      → ((k.tasks t).schedule_linked ≡ false) × ((k.tasks t).delay_linked ≡ false)
  pub entered : is_unused (k.tasks t).state ≡ false → ((k.tasks t).entry == 0) ≡ false
  pub priorities : is_unused (k.tasks t).state ≡ false → priorities_valid k t ≡ true
  pub checked :
      is_unused (k.tasks t).state ≡ false
      → check_state k t (k.tasks t).state in_ready in_delay ≡ true

-- How many of the tasks are in use, and how many run.
abbrev pub used_in : Kernel → List ℕ → ℕ
used_in k [] = 0
used_in k (t ∷ ts) = (if is_unused (k.tasks t).state then 0 else 1) + used_in k ts

-- Tests that leave the function, and what they say where it goes on
module _ {ℓ} {A : Type ℓ} where
  passed :
      (b : Bool) (y : Option A) {z : A}
      → (if b then none else y) ≡ some z
      → (b ≡ false) × (y ≡ some z)
  passed true y e = absurd (ground arith)
  passed false y e = (refl, e)

  required :
      (b : Bool) (x : Option A) {z : A}
      → (if b then x else none) ≡ some z
      → (b ≡ true) × (x ≡ some z)
  required true x e = (refl, e)
  required false x e = absurd (ground arith)

  if_true : (b : Bool) (x y : Option A) → b ≡ true → (if b then x else y) ≡ x
  if_true true x y t = refl
  if_true false x y t = absurd (ground arith)

  if_false : (b : Bool) (x y : Option A) → b ≡ false → (if b then x else y) ≡ y
  if_false true x y t = absurd (ground arith)
  if_false false x y t = refl

equal_numbers : (a b : ℕ) → not (a == b) ≡ false → a ≡ b
equal_numbers a b e = ground arith

unused-rests : (s : TaskState) → is_unused s ≡ true → is_running s ≡ false
unused-rests unused u = refl
unused-rests ready u = absurd (ground arith)
unused-rests running u = absurd (ground arith)
unused-rests blocked_delay u = absurd (ground arith)
unused-rests blocked_object u = absurd (ground arith)
unused-rests terminated u = absurd (ground arith)

pub both : (a b : Bool) → (a && b) ≡ true → (a ≡ true) × (b ≡ true)
both a b e = (ground arith, ground arith)

module _ (k : Kernel) (rm dm : ℕ → ℕ) where
  abbrev TaskStep : (t n n' r r' : ℕ) → Type 0
  TaskStep t n n' r r' =
      TaskFound k (rm t) (dm t) t
      × (n' ≡ n + (if is_unused (k.tasks t).state then 0 else 1))
      × (r' ≡ r + (if is_running (k.tasks t).state then 1 else 0))

  unused-found :
      (t n n' r r' : ℕ)
      → is_unused (k.tasks t).state ≡ true
      → (k.tasks t).id ≡ t
      → check_unused (k.tasks t) (rm t) (dm t) (n, r) ≡ some (n', r')
      → TaskStep t n n' r r'
  unfolding check_unused
  unused-found t n n' r r' u own e =
      let x = k.tasks t in
      let (found, e') =
        required ((rm t == 0) && (dm t == 0) && not x.schedule_linked && not x.delay_linked)
          (some (n, r)) e in
      (
        record {
          own_id = own;
          free = λ _. (ground arith, ground arith);
          entered = λ o. absurd (ground arith);
          priorities = λ o. absurd (ground arith);
          checked = λ o. absurd (ground arith);
        },
        ground (arith, u, e'),
        ground (arith, unused-rests (k.tasks t).state u, e'),
      )

  used-found :
      (t n n' r r' : ℕ)
      → is_unused (k.tasks t).state ≡ false
      → (k.tasks t).id ≡ t
      → check_used k t (rm t) (dm t) (n, r) ≡ some (n', r')
      → TaskStep t n n' r r'
  unfolding check_used
  used-found t n n' r r' u own e =
      let x = k.tasks t in
      let counts : ℕ × ℕ = (n + 1, if is_running x.state then r + 1 else r) in
      let valid = check_state k t x.state (rm t) (dm t) in
      let (sound, e₁) =
        passed (x.entry == 0 || not (priorities_valid k t)) (if valid then some counts else none)
          e in
      let (found, e₂) = required valid (some counts) e₁ in
      (
        record {
          own_id = own;
          free = λ o. absurd (ground arith);
          entered = λ _. ground arith;
          priorities = λ _. ground arith;
          checked = λ _. found;
        },
        ground (arith, u, e₂),
        ground (arith, e₂),
      )

  task-found :
      (t n n' r r' : ℕ) → check_task k rm dm t (n, r) ≡ some (n', r') → TaskStep t n n' r r'
  unfolding check_task
  task-found t n n' r r' e =
      let x = k.tasks t in
      let (own, e₁) =
        passed (not (x.id == t))
          (if is_unused x.state
            then check_unused x (rm t) (dm t) (n, r)
            else check_used k t (rm t) (dm t) (n, r))
          e in
      elim (Bool-cases (is_unused (k.tasks t).state)) [
        | inl u ↦
            unused-found t n n' r r' u (equal_numbers x.id t own)
              (sym (if_true (is_unused x.state) _ _ u) ∙ e₁)
        | inr u ↦
            used-found t n n' r r' u (equal_numbers x.id t own)
              (sym (if_false (is_unused x.state) _ _ u) ∙ e₁)
      ]

  pub tasks-found :
      (ts : List ℕ) (n n' r r' : ℕ)
      → try_each (check_task k rm dm) ts (n, r) ≡ some (n', r')
      → ((t : ℕ) → 0 < count t ts → TaskFound k (rm t) (dm t) t)
        × (n' ≡ n + used_in k ts)
        × ((t : ℕ) → 0 < count t ts → is_running (k.tasks t).state ≡ true → 0 < r')
        × (r ≤ r')
  tasks-found [] n n' r r' e =
      (λ t h. absurd (ground arith), ground arith, λ t h. absurd (ground arith), ground arith)
  tasks-found (t ∷ ts) n n' r r' e =
      let (s, f, g) =
        and_then-some (check_task k rm dm t (n, r)) (try_each (check_task k rm dm) ts) (n', r') e in
      let (here, step, runner) = task-found t n s.0 r s.1 f in
      let (there, sum, runners, more) = tasks-found ts s.0 n' s.1 r' g in
      (
        λ u h. elim (Bool-cases (t == u)) [
          | inl y ↦ let same : t ≡ u = ground arith in rw (sym same) here
          | inr y ↦ there u (ground arith)
        ],
        ground (arith, step, sum),
        λ u h i. elim (Bool-cases (t == u)) [
          | inl y ↦ let same : t ≡ u = ground arith in ground (arith, runner, more, same)
          | inr y ↦ runners u (ground arith) i
        ],
        omega (arith, more, runner),
      )

-- What the check of a state says of the memberships
module _ (k : Kernel) (t a b : ℕ) where
  delay_met :
      (linked p q r : Bool)
      → linked ≡ true
      → (if linked then (b == 1) && p && q else r) ≡ true
      → b ≡ 1
  delay_met true p q r l e = ground arith
  delay_met false p q r l e = absurd (ground arith)

  pub check_state-ready : (s : TaskState) → check_state k t s a b ≡ true → is_ready s ≡ true → a ≡ 1
  unfolding check_state
  check_state-ready unused e r = absurd (ground arith)
  check_state-ready ready e r = ground arith
  check_state-ready running e r = absurd (ground arith)
  check_state-ready blocked_delay e r = absurd (ground arith)
  check_state-ready blocked_object e r = absurd (ground arith)
  check_state-ready terminated e r = absurd (ground arith)

  pub check_state-delay :
      (s : TaskState) → check_state k t s a b ≡ true → (k.tasks t).delay_linked ≡ true → b ≡ 1
  unfolding check_state
  check_state-delay unused e r = absurd (ground arith)
  check_state-delay ready e r = absurd (ground arith)
  check_state-delay running e r = absurd (ground arith)
  check_state-delay blocked_delay e r = ground arith
  check_state-delay blocked_object e r =
      let (listed, timed) = both _ _ e in delay_met (k.tasks t).delay_linked _ _ _ r timed
  check_state-delay terminated e r = absurd (ground arith)
