-- ===== src/Validate/Walks.antt =====
-- What each walk of os_KernelValidate has seen when it ends without a fault.
use mini_rtos.Base.{
  ℕ, ◌+◌, ◌≤◌, ◌<◌, ◌≡◌, refl, true, ◌&&◌, ◌||◌, not, Option, none, some, List, [], ◌∷◌, ltb, ◌==◌,
  inl, inr, arith, count, is_empty, same_handle, if◌then◌else◌, Bool-cases, sym, ap,
}
use mini_rtos.Base.Bits.{has_bit, set_bit, has_bit-set_bit, set_bit-lt}
use mini_rtos.Base.Sorted.{Sorted, AllOf, AllOf-map}
use mini_rtos.Kernel.{Kernel, is_ready, is_blocked_delay, is_blocked_object, max_tasks}
use mini_rtos.Invariant.{ByWake}
use mini_rtos.Validate.{
  and_then, try_each, check_ready_node, check_ready_list, check_delay_node, check_delay_list,
  in_order,
}

pub and_then-some {ℓ κ} :
    {A : Type ℓ} {B : Type κ} (o : Option A) (f : A → Option B) (b : B)
    → and_then o f ≡ some b
    → (a : A) × (o ≡ some a) × (f a ≡ some b)
and_then-some none f b e = absurd (ground arith)
and_then-some (some a) f b e = (a, refl, e)

-- What the first pass finds of a node of the ready queue of `priority`
pub record ReadyNode (k : Kernel) (priority t : ℕ) : Type 0 where
  pub place : t < max_tasks
  pub linked : (k.tasks t).schedule_linked ≡ true
  pub state : is_ready (k.tasks t).state ≡ true
  pub rank : (k.tasks t).effective_priority ≡ priority

-- ... and the second of a node of a delay list.
pub record DelayNode (k : Kernel) (list t : ℕ) : Type 0 where
  pub place : t < max_tasks
  pub linked : (k.tasks t).delay_linked ≡ true
  pub state : (is_blocked_delay (k.tasks t).state || is_blocked_object (k.tasks t).state) ≡ true
  pub named : same_handle (k.tasks t).delay_list (some list) ≡ true

module _ (k : Kernel) (priority : ℕ) where
  check_ready_node-found :
      (t n n' : ℕ) (m m' : ℕ → ℕ)
      → check_ready_node k priority t (n, m) ≡ some (n', m')
      → ReadyNode k priority t × (n' ≡ n + 1) × ((u : ℕ) → m' u ≡ m u + (if t == u then 1 else 0))
  unfolding check_ready_node
  check_ready_node-found t n n' m m' e = (
    record {
      place = ground arith;
      linked = ground arith;
      state = ground arith;
      rank = ground arith;
    },
    ground arith,
    λ u. ground arith,
  )

  -- The walk over one ready queue counts its members.
  ready_walk-found :
      (ts : List ℕ) (n n' : ℕ) (m m' : ℕ → ℕ)
      → try_each (check_ready_node k priority) ts (n, m) ≡ some (n', m')
      → ((u : ℕ) → 0 < count u ts → ReadyNode k priority u)
        × ((u : ℕ) → m' u ≡ m u + count u ts)
        × ((n ≡ n') → is_empty ts ≡ true)
        × (n ≤ n')
        × ((is_empty ts ≡ true) → n ≡ n')
  ready_walk-found [] n n' m m' e =
      (λ u h. absurd (ground arith), λ u. ground arith, λ _. refl, ground arith, λ _. ground arith)
  ready_walk-found (t ∷ ts) n n' m m' e =
      let (s, f, g) =
        and_then-some (check_ready_node k priority t (n, m))
          (try_each (check_ready_node k priority) ts) (n', m') e in
      let (node, up, step) = check_ready_node-found t n s.0 m s.1 f in
      let (nodes, total, some_more, more, no_more) = ready_walk-found ts s.0 n' s.1 m' g in
      (
        λ u h. elim (Bool-cases (t == u)) [
          | inl y ↦ let same : t ≡ u = ground arith in rw (sym same) node
          | inr y ↦ nodes u (ground arith)
        ],
        λ u. ground (arith, total u, step u),
        λ z. absurd (omega arith),
        omega arith,
        λ z. absurd (ground arith),
      )

-- How often `t` is in the ready queues of `priorities`, or in the delay lists
abbrev pub total : (ℕ → List ℕ) → ℕ → List ℕ → ℕ
total lists t [] = 0
total lists t (p ∷ ps) = count t (lists p) + total lists t ps

-- One ready queue adds its bit where it is not empty.
ready_list-found :
    (k : Kernel) (p b b' : ℕ) (m m' : ℕ → ℕ)
    → check_ready_list k p (m, b) ≡ some (m', b')
    → ((u : ℕ) → 0 < count u (k.ready_lists p) → ReadyNode k p u)
      × ((u : ℕ) → m' u ≡ m u + count u (k.ready_lists p))
      × (b' ≡ (if is_empty (k.ready_lists p) then b else set_bit b p))
unfolding check_ready_list
ready_list-found k p b b' m m' e =
    let (s, f, g) =
      and_then-some (try_each (check_ready_node k p) (k.ready_lists p) (0, m)) _ (m', b') e in
    let (nodes, total, some_more, more, no_more) =
      ready_walk-found k p (k.ready_lists p) 0 s.0 m s.1 f in
    (nodes, λ u. ground (arith, total u), ground (arith, some_more, no_more))

-- The first pass over some of the priorities
pub ready_pass-found :
    (k : Kernel) (ps : List ℕ) (b b' : ℕ) (m m' : ℕ → ℕ)
    → ((p : ℕ) → 0 < count p ps → p < 8)
    → b < 256
    → try_each (check_ready_list k) ps (m, b) ≡ some (m', b')
    → ((p u : ℕ) → 0 < count p ps → 0 < count u (k.ready_lists p) → ReadyNode k p u)
      × ((u : ℕ) → m' u ≡ m u + total k.ready_lists u ps)
      × ((q : ℕ)
          → q < 8
          → has_bit b' q
            ≡ (has_bit b q || (ltb 0 (count q ps) && not (is_empty (k.ready_lists q)))))
ready_pass-found k [] b b' m m' low bound e =
    (λ p u h. absurd (ground arith), λ u. ground arith, λ q h. ground arith)
ready_pass-found k (p ∷ ps) b b' m m' low bound e =
    let (s, f, g) =
      and_then-some (check_ready_list k p (m, b)) (try_each (check_ready_list k) ps) (m', b') e in
    let (nodes, step, bits) = ready_list-found k p b s.1 m s.0 f in
    let here : p < 8 = low p (ground arith) in
    let (rest, sums, masks) =
      ready_pass-found k ps s.1 b' s.0 m' (λ q h. low q (ground arith))
        (ground (arith, set_bit-lt b p p bound here here)) g in
    (
      λ q u h i. elim (Bool-cases (p == q)) [
        | inl y ↦ let same : p ≡ q = ground arith in rw (sym same) (nodes u (ground arith))
        | inr y ↦ rest q u (ground arith) i
      ],
      λ u. ground (arith, sums u, step u),
      λ q h. ground (arith, masks q h, has_bit-set_bit b p q bound here h),
    )

in_order_trans :
    (last : Option ℕ) (a b : ℕ) → in_order last a ≡ true → a ≤ b → in_order last b ≡ true
in_order_trans none a b h l = refl
in_order_trans (some c) a b h l = ground arith

module _ (k : Kernel) (list : ℕ) where
  check_delay_node-found :
      (t n n' : ℕ) (l l' : Option ℕ) (m m' : ℕ → ℕ)
      → check_delay_node k list t (n, l, m) ≡ some (n', l', m')
      → DelayNode k list t
        × (in_order l (k.tasks t).wake_tick ≡ true)
        × (l' ≡ some (k.tasks t).wake_tick)
        × ((u : ℕ) → m' u ≡ m u + (if t == u then 1 else 0))
  unfolding check_delay_node
  check_delay_node-found t n n' l l' m m' e = (
    record {
      place = ground arith;
      linked = ground arith;
      state = ground arith;
      named = ground arith;
    },
    ground arith,
    ground arith,
    λ u. ground arith,
  )

  -- The walk over one delay list counts its members, which are in order and behind `l`.
  delay_walk-found :
      (ts : List ℕ) (n n' : ℕ) (l l' : Option ℕ) (m m' : ℕ → ℕ)
      → try_each (check_delay_node k list) ts (n, l, m) ≡ some (n', l', m')
      → ((u : ℕ) → 0 < count u ts → DelayNode k list u)
        × ((u : ℕ) → m' u ≡ m u + count u ts)
        × Sorted (ByWake k.tasks) ts
        × AllOf (λ u. in_order l (k.tasks u).wake_tick ≡ true) ts
  delay_walk-found [] n n' l l' m m' e = (λ u h. absurd (ground arith), λ u. ground arith, tt, tt)
  delay_walk-found (t ∷ ts) n n' l l' m m' e =
      let (s, f, g) =
        and_then-some (check_delay_node k list t (n, l, m)) (try_each (check_delay_node k list) ts)
          (n', l', m') e in
      let (node, placed, last, step) = check_delay_node-found t n s.0 l s.1 m s.2 f in
      let (nodes, sums, sorted, behind) = delay_walk-found ts s.0 n' s.1 l' s.2 m' g in
      let later : AllOf (ByWake k.tasks t) ts =
        AllOf-map (λ u. in_order s.1 (k.tasks u).wake_tick ≡ true) (ByWake k.tasks t) ts
          (λ u h o. ground (arith, last)) behind in
      (
        λ u h. elim (Bool-cases (t == u)) [
          | inl y ↦ let same : t ≡ u = ground arith in rw (sym same) node
          | inr y ↦ nodes u (ground arith)
        ],
        λ u. ground (arith, sums u, step u),
        (later, sorted),
        (
          placed,
          AllOf-map (ByWake k.tasks t) (λ u. in_order l (k.tasks u).wake_tick ≡ true) ts
              (λ u h o. in_order_trans l (k.tasks t).wake_tick (k.tasks u).wake_tick placed o)
              later,
        ),
      )

delay_list-found :
    (k : Kernel) (d : ℕ) (m m' : ℕ → ℕ)
    → check_delay_list k d m ≡ some m'
    → ((u : ℕ) → 0 < count u (k.delayed_lists d) → DelayNode k d u)
      × ((u : ℕ) → m' u ≡ m u + count u (k.delayed_lists d))
      × Sorted (ByWake k.tasks) (k.delayed_lists d)
unfolding check_delay_list
delay_list-found k d m m' e =
    let (s, f, g) =
      and_then-some (try_each (check_delay_node k d) (k.delayed_lists d) (0, none, m)) _ m' e in
    let (nodes, sums, sorted, behind) =
      delay_walk-found k d (k.delayed_lists d) 0 s.0 none s.1 m s.2 f in
    (nodes, λ u. ground (arith, sums u), sorted)

-- The second pass over some of the delay lists
pub delay_pass-found :
    (k : Kernel) (ds : List ℕ) (m m' : ℕ → ℕ)
    → try_each (check_delay_list k) ds m ≡ some m'
    → ((d u : ℕ) → 0 < count d ds → 0 < count u (k.delayed_lists d) → DelayNode k d u)
      × ((u : ℕ) → m' u ≡ m u + total k.delayed_lists u ds)
      × ((d : ℕ) → 0 < count d ds → Sorted (ByWake k.tasks) (k.delayed_lists d))
delay_pass-found k [] m m' e =
    (λ d u h. absurd (ground arith), λ u. ground arith, λ d h. absurd (ground arith))
delay_pass-found k (d ∷ ds) m m' e =
    let (s, f, g) =
      and_then-some (check_delay_list k d m) (try_each (check_delay_list k) ds) m' e in
    let (nodes, step, sorted) = delay_list-found k d m s f in
    let (rest, sums, others) = delay_pass-found k ds s m' g in
    (
      λ q u h i. elim (Bool-cases (d == q)) [
        | inl y ↦ let same : d ≡ q = ground arith in rw (sym same) (nodes u (ground arith))
        | inr y ↦ rest q u (ground arith) i
      ],
      λ u. ground (arith, sums u, step u),
      λ q h. elim (Bool-cases (d == q)) [
        | inl y ↦ let same : d ≡ q = ground arith in rw (sym same) sorted
        | inr y ↦ others q (ground arith)
      ],
    )

-- A task that is in no other list than `home` is in all of them together as often as in that one,
-- where the walk comes by it.
pub total-home :
    (lists : ℕ → List ℕ) (t home : ℕ) (ps : List ℕ)
    → ((p : ℕ) → 0 < count p ps → 0 < count t (lists p) → p ≡ home)
    → count home ps ≤ 1
    → total lists t ps ≡ (if ltb 0 (count home ps) then count t (lists home) else 0)
total-home lists t home [] only once = refl
total-home lists t home (p ∷ ps) only once =
    let rest = total-home lists t home ps (λ q h. only q (ground arith)) (omega arith) in
    elim (Bool-cases (p == home)) [
      | inl y ↦ let same : p ≡ home = ground arith in ground (arith, ap lists same, rest)
      | inr y ↦ ground (arith, only p, rest)
    ]
