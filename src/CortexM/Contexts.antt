-- ===== src/CortexM/Contexts.antt =====
-- Where the contexts of the tasks are kept: that of the loaded task in the registers, those of the
-- others on their own stacks.
use mini_rtos.Base.{ℕ, ◌+◌, ◌≤◌, ◌<◌, ◌≡◌, false, ◌⊎◌, some, ◌==◌, ap, ◌∙◌}
use mini_rtos.Kernel.{Kernel}
use mini_rtos.Statics.{Fixed, Identity}
use mini_rtos.CortexM.{Machine, load_registers}

-- What a task has of its own in the processor: R4 to R11 at their numbers, and its stack pointer.
pub record Context : Type 0 where
  pub registers : ℕ → ℕ
  pub psp : ℕ

-- A stack pointer of `t` with room for R4 to R11 below it in the stack of `t`
abbrev pub Within : Kernel → ℕ → ℕ → Type 0
Within k t psp =
    ((k.tasks t).stack_memory + 32 ≤ psp)
    × (psp ≤ (k.tasks t).stack_memory + (k.tasks t).stack_size)

abbrev pub OffStack : Kernel → ℕ → ℕ → Type 0
OffStack k t a =
    (a < (k.tasks t).stack_memory) ⊎ ((k.tasks t).stack_memory + (k.tasks t).stack_size ≤ a)

-- The tasks with a stack pointer have stacks of their own.
pub record Layout (k : Kernel) : Type 0 where
  pub low : (t : ℕ) → 0 < (k.tasks t).sp → 0 < (k.tasks t).stack_memory
  pub apart :
      (t u : ℕ)
      → (t == u) ≡ false
      → 0 < (k.tasks t).sp
      → 0 < (k.tasks u).sp
      → ((k.tasks t).stack_memory + (k.tasks t).stack_size ≤ (k.tasks u).stack_memory)
        ⊎ ((k.tasks u).stack_memory + (k.tasks u).stack_size ≤ (k.tasks t).stack_memory)

-- The context `c` of task `t` lies at its stack pointer.
pub record Stored (k : Kernel) (words : ℕ → ℕ) (t : ℕ) (c : Context) : Type 0 where
  pub psp : (k.tasks t).sp + 32 ≡ c.psp
  pub room : Within k t ((k.tasks t).sp + 32)
  pub saved : (r : ℕ) → 4 ≤ r → r ≤ 11 → load_registers words (k.tasks t).sp r ≡ c.registers r

-- One task is loaded, and the contexts of all others are stored.
pub record Contexts (contexts : ℕ → Context) (m : Machine) : Type 0 where
  pub layout : Layout m.kernel
  pub owner : ℕ
  pub owned : m.psp_owner ≡ some owner
  pub stacked : 0 < (m.kernel.tasks owner).sp
  pub room : Within m.kernel owner m.psp
  pub stored :
      (t : ℕ)
      → (t == owner) ≡ false
      → 0 < (m.kernel.tasks t).sp
      → Stored m.kernel m.words t (contexts t)

-- The stack of a task
pub record Stack : Type 0 where
  pub sp : ℕ
  pub memory : ℕ
  pub size : ℕ

abbrev pub stack_of : Kernel → ℕ → Stack
stack_of k t = record {
  sp = (k.tasks t).sp;
  memory = (k.tasks t).stack_memory;
  size = (k.tasks t).stack_size;
}

pub record SameStacks (k k' : Kernel) : Type 0 where
  pub same : (t : ℕ) → stack_of k' t ≡ stack_of k t

stack_in : Identity → Stack
stack_in i = record { sp = i.sp; memory = i.stack_memory; size = i.stack_size }

pub Fixed-SameStacks : {k k' : Kernel} → Fixed k k' → SameStacks k k'
unfolding stack_in
Fixed-SameStacks f = record { same = λ t. ap stack_in (f.same t) }

module _ {k k' : Kernel} (f : SameStacks k k') (t : ℕ) where
  pub same_sp : (k'.tasks t).sp ≡ (k.tasks t).sp
  same_sp = ap (λ (i : Stack). i.sp) (f.same t)

  pub same_memory : (k'.tasks t).stack_memory ≡ (k.tasks t).stack_memory
  same_memory = ap (λ (i : Stack). i.memory) (f.same t)

  pub same_size : (k'.tasks t).stack_size ≡ (k.tasks t).stack_size
  same_size = ap (λ (i : Stack). i.size) (f.same t)

  Within-stacks : (psp : ℕ) → Within k t psp → Within k' t psp
  Within-stacks psp w = rw (same_memory, same_size) w

  pub Stored-stacks : (words : ℕ → ℕ) (c : Context) → Stored k words t c → Stored k' words t c
  Stored-stacks words c s = record {
    psp = rw same_sp s.psp;
    room = rw (same_sp, same_memory, same_size) s.room;
    saved = rw same_sp s.saved;
  }

pub Layout-stacks : {k k' : Kernel} → SameStacks k k' → Layout k → Layout k'
Layout-stacks f l = record {
  low = λ t p. rw (same_memory f t) (l.low t (rw (same_sp f t) at p));
  apart = λ t u n p q.
      rw (same_memory f t, same_size f t, same_memory f u, same_size f u)
        (l.apart t u n (rw (same_sp f t) at p) (rw (same_sp f u) at q));
}

-- A step of the kernel that neither loads another context nor writes to the stacks
pub record Aside (m m' : Machine) : Type 0 where
  pub stacks : SameStacks m.kernel m'.kernel
  pub psp_owner : m'.psp_owner ≡ m.psp_owner
  pub psp : m'.psp ≡ m.psp
  pub words : m'.words ≡ m.words

pub Aside-Contexts :
    {m m' : Machine} {contexts : ℕ → Context}
    → Aside m m'
    → Contexts contexts m
    → Contexts contexts m'
Aside-Contexts a c = record {
  layout = Layout-stacks a.stacks c.layout;
  owner = c.owner;
  owned = a.psp_owner ∙ c.owned;
  stacked = rw (same_sp a.stacks c.owner) c.stacked;
  room = rw a.psp (Within-stacks a.stacks c.owner _ c.room);
  stored = λ t n p.
      rw a.words (Stored-stacks a.stacks t _ _ (c.stored t n (rw (same_sp a.stacks t) at p)));
}
