-- ===== src/CortexM/Exchange.antt =====
-- Code that runs on its own stack keeps the contexts of the others, and PendSV exchanges contexts.
use mathlib.Core.Path.{subst}
use mini_rtos.Base.{
  ℕ, ◌+◌, ◌-◌, ◌*◌, ◌≤◌, ◌<◌, ◌≡◌, refl, false, inl, inr, Option, none, some, ◌==◌, arith, update,
  sym, ap, ◌∙◌, Bool-cases,
}
use mini_rtos.Kernel.{Kernel, Task}
use mini_rtos.CortexM.{
  Machine, load_registers, store_registers, set_sp, resume, resume_at, pendsv_handler, svc_handler,
  enable_systick, pendsv_restore_psp,
}
use mini_rtos.CortexM.Switch.{
  left, pendsv_handler-resume, store-load, load_registers-apart, set_sp-current, resume-same,
}
use mini_rtos.CortexM.Contexts.{
  Aside, Aside-Contexts, Context, Within, OffStack, Layout, Stored, Contexts,
}

-- The words at which a stored context lies are on the stack of its task.
load_registers-kept :
    (k : Kernel) (words words' : ℕ → ℕ) (t u sp r : ℕ)
    → Layout k
    → (t == u) ≡ false
    → 0 < (k.tasks t).sp
    → 0 < (k.tasks u).sp
    → Within k u (sp + 32)
    → ((a : ℕ) → OffStack k t a → words' a ≡ words a)
    → 4 ≤ r
    → r ≤ 11
    → load_registers words' sp r ≡ load_registers words sp r
unfolding load_registers
load_registers-kept k words words' t u sp r l n p q w off lo hi =
    let apart = l.apart t u n p q in off (sp + 4 * (r - 4)) (ground (arith, apart, w))

pub run-Contexts :
    {contexts : ℕ → Context} {m : Machine} (t : ℕ) (registers : ℕ → ℕ) (psp : ℕ) (words : ℕ → ℕ)
    → Contexts contexts m
    → m.psp_owner ≡ some t
    → Within m.kernel t psp
    → ((a : ℕ) → OffStack m.kernel t a → words a ≡ m.words a)
    → Contexts contexts (record m { registers = registers; psp = psp; words = words })
run-Contexts {contexts} {m} t registers psp words c o w off =
    let same : c.owner ≡ t = ground (arith, c.owned) in
    let live : 0 < (m.kernel.tasks t).sp = subst (λ i. 0 < (m.kernel.tasks i).sp) same c.stacked in
    record {
      layout = c.layout;
      owner = t;
      owned = o;
      stacked = live;
      room = w;
      stored = λ u n p.
          let s = c.stored u (rw same n) p in
          record {
            psp = s.psp;
            room = s.room;
            saved = λ r lo hi.
                load_registers-kept m.kernel m.words words t u (m.kernel.tasks u).sp r c.layout
                  (ground arith) live p s.room off lo hi
                ∙ s.saved r lo hi;
          };
    }

-- A context stays stored where the TCB and the words at its stack pointer do.
Stored-moved :
    (k k' : Kernel) (words words' : ℕ → ℕ) (t : ℕ) (c : Context)
    → k'.tasks t ≡ k.tasks t
    → ((r : ℕ)
        → 4 ≤ r
        → r ≤ 11
        → load_registers words' (k.tasks t).sp r ≡ load_registers words (k.tasks t).sp r)
    → Stored k words t c
    → Stored k' words' t c
Stored-moved k k' words words' t c e same s = record {
  psp = ap (λ (x : Task). x.sp + 32) e ∙ s.psp;
  room = rw e s.room;
  saved =
      λ r lo hi. ap (λ (x : Task). load_registers words' x.sp r) e ∙ same r lo hi ∙ s.saved r lo hi;
}

-- The contexts of the tasks once that of the loaded one is stored
abbrev pub with_loaded : (ℕ → Context) → Machine → Option ℕ → ℕ → Context
with_loaded contexts m none = contexts
with_loaded contexts m (some o) =
    update contexts o (record { registers = m.registers; psp = m.psp })

module _ (contexts : ℕ → Context) (m : Machine) (c : Contexts contexts m) where
  abbrev saved_kernel : Kernel
  saved_kernel = set_sp m.kernel (some c.owner) (m.psp - 32)

  abbrev saved_words : ℕ → ℕ
  saved_words = store_registers m.words (m.psp - 32) m.registers

  saved-Layout : Layout saved_kernel
  unfolding set_sp
  saved-Layout = record {
    low = λ t p. ground (arith, c.layout.low t, c.stacked, c.layout.low c.owner);
    apart = λ t u n p q. ground (arith, c.layout.apart t u, c.stacked);
  }

  saved_task : (t : ℕ) → (t == c.owner) ≡ false → saved_kernel.tasks t ≡ m.kernel.tasks t
  unfolding set_sp
  saved_task t n = ground arith

  saved_sp : (saved_kernel.tasks c.owner).sp ≡ m.psp - 32
  unfolding set_sp
  saved_sp = ground arith

  saved-Stored :
      (t : ℕ)
      → 0 < (saved_kernel.tasks t).sp
      → Stored saved_kernel saved_words t (with_loaded contexts m (some c.owner) t)
  unfolding set_sp
  saved-Stored t p = elim (Bool-cases (t == c.owner)) [
    | inl y ↦
        let same : t ≡ c.owner = ground arith in
        rw (y, same)
          (record {
            psp = ground (arith, c.room);
            room = ground (arith, c.room);
            saved = λ r lo hi.
                ap (λ b. load_registers saved_words b r) saved_sp
                ∙ store-load m.words (m.psp - 32) m.registers r lo hi;
          })
    | inr n ↦
        let s = c.stored t n (ground arith) in
        let apart = c.layout.apart t c.owner n (ground arith) c.stacked in
        rw n (
          Stored-moved m.kernel saved_kernel m.words saved_words t (contexts t) (saved_task t n)
            (λ r lo hi.
              load_registers-apart m.words (m.psp - 32) (m.kernel.tasks t).sp m.registers r
                (ground (arith, apart, s.room, c.room)) lo hi)
            s)
  ]

-- The task that is current runs next, with the context that it left with.
pub record Resumed (contexts : ℕ → Context) (m m' : Machine) : Type 0 where
  pub task : ℕ
  pub current : m.kernel.current ≡ some task
  pub owner : m'.psp_owner ≡ some task
  pub psp : m'.psp ≡ (contexts task).psp
  pub loaded : (r : ℕ) → 4 ≤ r → r ≤ 11 → m'.registers r ≡ (contexts task).registers r
  pub irq : m'.irq_disabled ≡ false

resume-Resumed :
    (contexts : ℕ → Context) (n m' : Machine) (o : Option ℕ)
    → n.psp_owner ≡ n.kernel.current
    → ((t : ℕ) → 0 < (n.kernel.tasks t).sp → Stored n.kernel n.words t (contexts t))
    → resume (n, resume_at n.kernel n.kernel.current) ≡ some m'
    → o ≡ n.kernel.current
    → Resumed contexts n m'
unfolding resume resume_at
resume-Resumed contexts n m' none owner stored e f = absurd (ground arith)
resume-Resumed contexts n m' (some u) owner stored e f =
    let live : 0 < (n.kernel.tasks u).sp = ground arith in
    let s = stored u live in
    record {
      task = u;
      current = sym f;
      owner = ground arith;
      psp = ground (arith, s.psp);
      loaded = λ r lo hi. ground (arith, s.saved r lo hi);
      irq = ground arith;
    }

resume-Contexts :
    (contexts : ℕ → Context) (n m' : Machine) (o : Option ℕ)
    → Layout n.kernel
    → n.psp_owner ≡ n.kernel.current
    → ((t : ℕ) → 0 < (n.kernel.tasks t).sp → Stored n.kernel n.words t (contexts t))
    → resume (n, resume_at n.kernel n.kernel.current) ≡ some m'
    → o ≡ n.kernel.current
    → Contexts contexts m'
unfolding resume resume_at
resume-Contexts contexts n m' none layout owner stored e f = absurd (ground arith)
resume-Contexts contexts n m' (some u) layout owner stored e f =
    let live : 0 < (n.kernel.tasks u).sp = ground arith in
    let s = stored u live in
    let same_kernel : m'.kernel ≡ n.kernel = ground arith in
    let same_words : m'.words ≡ n.words = ground arith in
    let same_psp : m'.psp ≡ (n.kernel.tasks u).sp + 32 = ground arith in
    let same_owner : m'.psp_owner ≡ some u = ground arith in
    record {
      layout = rw same_kernel layout;
      owner = u;
      owned = same_owner;
      stacked = rw same_kernel live;
      room = rw (same_kernel, same_psp) s.room;
      stored = λ t n p. rw (same_kernel, same_words) (stored t (rw same_kernel at p));
    }

-- PendSV stores the context that is loaded and loads the one of the current task.
pub pendsv-Contexts :
    (contexts : ℕ → Context) (m m' : Machine)
    → Contexts contexts m
    → pendsv_handler m ≡ some m'
    → Contexts (with_loaded contexts m m.psp_owner) m'
      × Resumed (with_loaded contexts m m.psp_owner) m m'
pendsv-Contexts contexts m m' c e =
    let base = m.psp - 32 in
    let words = store_registers m.words base m.registers in
    let layout : Layout (left m).kernel =
      subst (λ o. Layout (set_sp m.kernel o base)) (sym c.owned) (saved-Layout contexts m c) in
    let stored : (t : ℕ)
        → 0 < ((left m).kernel.tasks t).sp
        → Stored (left m).kernel words t (with_loaded contexts m m.psp_owner t) =
      subst
        (λ o.
          (t : ℕ)
          → 0 < ((set_sp m.kernel o base).tasks t).sp
          → Stored (set_sp m.kernel o base) words t (with_loaded contexts m o t))
        (sym c.owned) (saved-Stored contexts m c) in
    let f = sym (pendsv_handler-resume m) ∙ e in
    let current = (left m).kernel.current in
    let next = with_loaded contexts m m.psp_owner in
    let r = resume-Resumed next (left m) m' current refl stored f refl in
    (
      resume-Contexts next (left m) m' current layout refl stored f refl,
      record {
        task = r.task;
        current = sym (set_sp-current m.kernel m.psp_owner base) ∙ r.current;
        owner = r.owner;
        psp = r.psp;
        loaded = r.loaded;
        irq = r.irq;
      },
    )

svc_resume-some :
    (n m' : Machine) (o : Option ℕ)
    → elim (resume (n, o)) [ none ↦ none | some n' ↦ some (enable_systick n') ] ≡ some m'
    → (n' : Machine) × (resume (n, o) ≡ some n') × (m' ≡ record n' { syst_csr = 7 })
unfolding resume enable_systick
svc_resume-some n m' none e = absurd (ground arith)
svc_resume-some n m' (some sp) e = (
  record n { registers = load_registers n.words sp; psp = sp + 32; irq_disabled = false },
  refl,
  ground arith,
)

-- SVC_Handler loads the context of the current task where all contexts are stored.
pub svc-Contexts :
    (contexts : ℕ → Context) (m m' : Machine)
    → Layout m.kernel
    → ((t : ℕ) → 0 < (m.kernel.tasks t).sp → Stored m.kernel m.words t (contexts t))
    → svc_handler m ≡ some m'
    → Contexts contexts m' × Resumed contexts m m' × (m'.kernel ≡ m.kernel)
unfolding svc_handler pendsv_restore_psp
svc-Contexts contexts m m' layout stored e =
    let current = m.kernel.current in
    let n : Machine = record m { psp_owner = current } in
    let (n', f, same) = svc_resume-some n m' (resume_at m.kernel current) e in
    let r = resume-Resumed contexts n n' current refl stored f refl in
    let aside : Aside n' (record n' { syst_csr = 7 }) = record {
      stacks = record { same = λ t. refl };
      psp_owner = refl;
      psp = refl;
      words = refl;
    } in
    (
      subst (Contexts contexts) (sym same)
          (Aside-Contexts aside (resume-Contexts contexts n n' current layout refl stored f refl)),
      subst (Resumed contexts m) (sym same) (record {
        task = r.task;
        current = r.current;
        owner = r.owner;
        psp = r.psp;
        loaded = r.loaded;
        irq = r.irq;
      }),
      ap (λ (x : Machine). x.kernel) same ∙ (resume-same n n' (resume_at m.kernel current) f).0,
    )
