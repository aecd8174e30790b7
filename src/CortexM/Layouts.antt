-- ===== src/CortexM/Layouts.antt =====
-- A creation gives the new task a frame on a stack of its own.
use mini_rtos.Base.{
  ℕ, ◌+◌, ◌-◌, ◌*◌, ◌≤◌, ◌<◌, ◌≡◌, false, ◌⊎◌, inl, inr, ◌==◌, arith, ap, ◌∙◌, Bool-cases,
}
use mini_rtos.Kernel.{Kernel}
use mini_rtos.CortexM.{load_registers}
use mini_rtos.CortexM.Frame.{Framed}
use mini_rtos.CortexM.Contexts.{
  Within, Layout, Stack, stack_of, SameStacks, Layout-stacks, same_sp, same_memory, same_size,
}

-- The initial frame of task `t` lies at its stack pointer.
pub record Initial (k : Kernel) (words : ℕ → ℕ) (t : ℕ) : Type 0 where
  pub room : Within k t ((k.tasks t).sp + 32)
  pub saved : (r : ℕ) → 4 ≤ r → r ≤ 11 → load_registers words (k.tasks t).sp r ≡ r

-- The tasks with a stack pointer have frames on stacks of their own.
pub record Arranged (k : Kernel) (words : ℕ → ℕ) : Type 0 where
  pub layout : Layout k
  pub frames : (t : ℕ) → 0 < (k.tasks t).sp → Initial k words t

pub Arranged-stacks :
    {k k' : Kernel} {words : ℕ → ℕ} → SameStacks k k' → Arranged k words → Arranged k' words
Arranged-stacks f a = record {
  layout = Layout-stacks f a.layout;
  frames = λ t p.
      let i = a.frames t (rw (same_sp f t) at p) in
      record {
        room = rw (same_sp f t, same_memory f t, same_size f t) i.room;
        saved = rw (same_sp f t) i.saved;
      };
}

-- The TCB of `t` has got a stack, those of the others have kept theirs.
pub record NewStack (k k' : Kernel) (t sp memory size : ℕ) : Type 0 where
  pub own : stack_of k' t ≡ record { sp = sp; memory = memory; size = size }
  pub others : (u : ℕ) → (u == t) ≡ false → stack_of k' u ≡ stack_of k u

module _ {k k' : Kernel} {t sp memory size : ℕ} (n : NewStack k k' t sp memory size) where
  own_sp : (k'.tasks t).sp ≡ sp
  own_sp = ap (λ (s : Stack). s.sp) n.own

  own_memory : (k'.tasks t).stack_memory ≡ memory
  own_memory = ap (λ (s : Stack). s.memory) n.own

  own_size : (k'.tasks t).stack_size ≡ size
  own_size = ap (λ (s : Stack). s.size) n.own

  module _ (u : ℕ) (o : (u == t) ≡ false) where
    other_sp : (k'.tasks u).sp ≡ (k.tasks u).sp
    other_sp = ap (λ (s : Stack). s.sp) (n.others u o)

    other_memory : (k'.tasks u).stack_memory ≡ (k.tasks u).stack_memory
    other_memory = ap (λ (s : Stack). s.memory) (n.others u o)

    other_size : (k'.tasks u).stack_size ≡ (k.tasks u).stack_size
    other_size = ap (λ (s : Stack). s.size) (n.others u o)

  pub new-Layout :
      0 < memory
      → ((u : ℕ)
          → 0 < (k.tasks u).sp
          → ((k.tasks u).stack_memory + (k.tasks u).stack_size ≤ memory)
            ⊎ (memory + size ≤ (k.tasks u).stack_memory))
      → Layout k
      → Layout k'
  new-Layout p apart l = record {
    low = λ u h. elim (Bool-cases (u == t)) [
      | inl y ↦
          let same : u ≡ t = ground arith in
          rw (ap (λ i. (k'.tasks i).stack_memory) same, own_memory) p
      | inr o ↦ rw (other_memory u o) (l.low u (rw (other_sp u o) at h))
    ];
    apart = λ u w d p q. elim (Bool-cases (u == t)) [
      | inl y ↦
          let same : u ≡ t = ground arith in
          let o : (w == t) ≡ false = ground arith in
          rw
            (
              ap (λ i. (k'.tasks i).stack_memory) same,
              ap (λ i. (k'.tasks i).stack_size) same,
              own_memory,
              own_size,
              other_memory w o,
              other_size w o,
            )
            (swap (apart w (rw (other_sp w o) at q)))
      | inr o ↦ elim (Bool-cases (w == t)) [
        | inl y ↦
            let same : w ≡ t = ground arith in
            rw
              (
                ap (λ i. (k'.tasks i).stack_memory) same,
                ap (λ i. (k'.tasks i).stack_size) same,
                own_memory,
                own_size,
                other_memory u o,
                other_size u o,
              )
              (apart u (rw (other_sp u o) at p))
        | inr i ↦
            rw (other_memory u o, other_size u o, other_memory w i, other_size w i)
              (l.apart u w d (rw (other_sp u o) at p) (rw (other_sp w i) at q))
      ]
    ];
  }
    where
      swap : {A B : Type 0} → A ⊎ B → B ⊎ A
      swap (inl a) = inr a
      swap (inr b) = inl b

  -- The words of the other stacks stand as they were.
  pub new-frames :
      (words words' : ℕ → ℕ)
      → Framed words memory size (words', sp)
      → ((r : ℕ) → 4 ≤ r → r ≤ 11 → load_registers words' sp r ≡ r)
      → ((u : ℕ)
          → 0 < (k.tasks u).sp
          → ((k.tasks u).stack_memory + (k.tasks u).stack_size ≤ memory)
            ⊎ (memory + size ≤ (k.tasks u).stack_memory))
      → ((u : ℕ) → 0 < (k.tasks u).sp → Initial k words u)
      → (u : ℕ) → 0 < (k'.tasks u).sp
      → Initial k' words' u
  unfolding load_registers
  new-frames words words' f saved apart frames u p = elim (Bool-cases (u == t)) [
    | inl y ↦
        let same : u ≡ t = ground arith in
        rw same (record {
          room = rw (own_sp, own_memory, own_size) (omega (arith, f.above), omega (arith, f.below));
          saved = rw own_sp saved;
        })
    | inr o ↦
        let q : 0 < (k.tasks u).sp = rw (other_sp u o) at p in
        let i = frames u q in
        record {
          room = rw (other_sp u o, other_memory u o, other_size u o) i.room;
          saved = λ r lo hi.
              ap (λ b. load_registers words' b r) (other_sp u o)
              ∙ f.outside ((k.tasks u).sp + 4 * (r - 4)) (ground (arith, apart u q, i.room))
              ∙ i.saved r lo hi;
        }
  ]
