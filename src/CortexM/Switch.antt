-- ===== src/CortexM/Switch.antt =====
-- PendSV saves the context of the task that it leaves and brings it back.
use mini_rtos.Base.{
  ap, sym, ◌∙◌, ℕ, ◌+◌, ◌-◌, ◌*◌, ◌/◌, ◌≤◌, ◌<◌, ◌≡◌, refl, true, false, ◌⊎◌, Option, none, some,
  arith, same_handle,
}
use mini_rtos.Kernel.{Kernel}
use mini_rtos.CortexM.{
  Machine, store_registers, load_registers, set_sp, resume_at, resume, pendsv_save_psp,
  pendsv_restore_psp, pendsv_handler,
}

pub store-load :
    (words : ℕ → ℕ) (base : ℕ) (registers : ℕ → ℕ) (r : ℕ)
    → 4 ≤ r
    → r ≤ 11
    → load_registers (store_registers words base registers) base r ≡ registers r
unfolding store_registers load_registers
store-load words base registers r lo hi =
    let place : 4 + (base + 4 * (r - 4) - base) / 4 ≡ r = omega arith in
    ground (arith, ap registers place)

store-outside :
    (words : ℕ → ℕ) (base : ℕ) (registers : ℕ → ℕ) (a : ℕ)
    → (a < base) ⊎ (base + 32 ≤ a)
    → store_registers words base registers a ≡ words a
unfolding store_registers
store-outside words base registers a o = ground arith

-- The context of task `t` as it left: its R4 to R11, its stack pointer, and where they are kept.
pub record Kept (m : Machine) (t base : ℕ) (registers : ℕ → ℕ) : Type 0 where
  pub sp : (m.kernel.tasks t).sp ≡ base
  pub saved : (r : ℕ) → 4 ≤ r → r ≤ 11 → load_registers m.words base r ≡ registers r

-- Resuming writes to no stack and to no TCB.
pub resume-same :
    (m m' : Machine) (o : Option ℕ)
    → resume (m, o) ≡ some m'
    → (m'.kernel ≡ m.kernel) × (m'.words ≡ m.words)
unfolding resume
resume-same m m' none e = absurd (ground arith)
resume-same m m' (some sp) e = (ground arith, ground arith)

pub resume-some :
    (m : Machine) (sp : ℕ)
    → resume (m, some sp)
      ≡ some
          (record m { registers = load_registers m.words sp; psp = sp + 32; irq_disabled = false })
unfolding resume
resume-some m sp = refl

set_sp_self :
    (k : Kernel) (owner : Option ℕ) (t sp : ℕ)
    → owner ≡ some t
    → ((set_sp k owner sp).tasks t).sp ≡ sp
unfolding set_sp
set_sp_self k none t sp e = absurd (ground arith)
set_sp_self k (some u) t sp e = ground arith

set_sp_other :
    (k : Kernel) (owner : Option ℕ) (t sp : ℕ)
    → same_handle owner (some t) ≡ false
    → ((set_sp k owner sp).tasks t).sp ≡ (k.tasks t).sp
unfolding set_sp
set_sp_other k none t sp e = refl
set_sp_other k (some u) t sp e = ground arith

pub set_sp-current :
    (k : Kernel) (owner : Option ℕ) (sp : ℕ) → (set_sp k owner sp).current ≡ k.current
unfolding set_sp
set_sp-current k none sp = refl
set_sp-current k (some u) sp = refl

-- The machine behind the two calls of PendSV_Handler.
abbrev pub left : Machine → Machine
left m =
    let k = set_sp m.kernel m.psp_owner (m.psp - 32) in
    record m {
      kernel = k;
      irq_disabled = true;
      pendsv = false;
      words = store_registers m.words (m.psp - 32) m.registers;
      psp_owner = k.current;
    }

pub pendsv_handler-resume :
    (m : Machine)
    → pendsv_handler m ≡ resume (left m, resume_at (left m).kernel (left m).kernel.current)
unfolding pendsv_handler pendsv_restore_psp pendsv_save_psp
pendsv_handler-resume m = refl

-- PendSV keeps the context of the task that it leaves.
pub save-Kept :
    (m m' : Machine) (t : ℕ)
    → m.psp_owner ≡ some t
    → pendsv_handler m ≡ some m'
    → Kept m' t (m.psp - 32) m.registers
save-Kept m m' t o e =
    let base = m.psp - 32 in
    let (same_kernel, same_words) =
      resume-same (left m) m' (resume_at (left m).kernel (left m).kernel.current)
        (sym (pendsv_handler-resume m) ∙ e) in
    record {
      sp = ground (arith, same_kernel, set_sp_self m.kernel m.psp_owner t base o);
      saved = λ r lo hi.
          ap (λ (words : ℕ → ℕ). load_registers words base r) same_words
          ∙ store-load m.words base m.registers r lo hi;
    }

-- Task `t` runs again, with the context that it left with.
pub record Returned (t base : ℕ) (registers : ℕ → ℕ) (m : Machine) : Type 0 where
  pub owner : m.psp_owner ≡ some t
  pub psp : m.psp ≡ base + 32
  pub restored : (r : ℕ) → 4 ≤ r → r ≤ 11 → m.registers r ≡ registers r
  pub irq : m.irq_disabled ≡ false

resume_at-some :
    (k : Kernel) (current : Option ℕ) (t base : ℕ)
    → current ≡ some t
    → (k.tasks t).sp ≡ base
    → 0 < base
    → resume_at k current ≡ some base
unfolding resume_at
resume_at-some k none t base e s p = absurd (ground arith)
resume_at-some k (some u) t base e s p = ground arith

pub load_registers-apart :
    (words : ℕ → ℕ) (at base : ℕ) (registers : ℕ → ℕ) (r : ℕ)
    → (base + 32 ≤ at) ⊎ (at + 32 ≤ base)
    → 4 ≤ r
    → r ≤ 11
    → load_registers (store_registers words at registers) base r ≡ load_registers words base r
unfolding load_registers
load_registers-apart words at base registers r o lo hi =
    store-outside words at registers (base + 4 * (r - 4)) (ground (arith, o))

-- PendSV brings a kept context back when its task has become current.
pub restore-Returned :
    (m : Machine) (t base : ℕ) (registers : ℕ → ℕ)
    → Kept m t base registers
    → 0 < base
    → m.kernel.current ≡ some t
    → same_handle m.psp_owner (some t) ≡ false
    → (base + 32 ≤ m.psp - 32) ⊎ (m.psp ≤ base)
    → 32 ≤ m.psp
    → (m' : Machine) × (pendsv_handler m ≡ some m') × Returned t base registers m'
restore-Returned m t base registers v p c o apart h =
    let current = set_sp-current m.kernel m.psp_owner (m.psp - 32) ∙ c in
    let sp = set_sp_other m.kernel m.psp_owner t (m.psp - 32) o ∙ v.sp in
    let at = resume_at-some (left m).kernel (left m).kernel.current t base current sp p in
    let m' : Machine = record (left m) {
      registers = load_registers (left m).words base;
      psp = base + 32;
      irq_disabled = false;
    } in
    (
      m',
      pendsv_handler-resume m
          ∙ ap (λ (q : Option ℕ). resume (left m, q)) at
          ∙ resume-some (left m) base,
      record {
        owner = current;
        psp = refl;
        restored = λ r lo hi.
            load_registers-apart m.words (m.psp - 32) base m.registers r (ground (arith, apart)) lo
              hi
            ∙ v.saved r lo hi;
        irq = refl;
      },
    )

-- Where PendSV_Handler left task t with process stack pointer above 32, and later, with the saved
-- stack pointer of t and its 32 bytes of saved registers unchanged, t is current again, another
-- task's context is loaded and its stack pointer leaves those bytes alone, PendSV_Handler resumes
-- t with the R4 to R11 and the process stack pointer it had, and interrupts enabled.
pub pendsv_handler-Returned :
    (m m₁ m₂ : Machine) (t : ℕ)
    → m.psp_owner ≡ some t
    → 32 < m.psp
    → pendsv_handler m ≡ some m₁
    → (m₂.kernel.tasks t).sp ≡ (m₁.kernel.tasks t).sp
    → ((r : ℕ)
        → 4 ≤ r
        → r ≤ 11
        → load_registers m₂.words (m.psp - 32) r ≡ load_registers m₁.words (m.psp - 32) r)
    → m₂.kernel.current ≡ some t
    → same_handle m₂.psp_owner (some t) ≡ false
    → (m.psp ≤ m₂.psp - 32) ⊎ (m₂.psp ≤ m.psp - 32)
    → 32 ≤ m₂.psp
    → (m₃ : Machine) × (pendsv_handler m₂ ≡ some m₃) × Returned t (m.psp - 32) m.registers m₃
pendsv_handler-Returned m m₁ m₂ t o h e sp area c other apart room =
    let v = save-Kept m m₁ t o e in
    restore-Returned m₂ t (m.psp - 32) m.registers
      (record { sp = sp ∙ v.sp; saved = λ r lo hi. area r lo hi ∙ v.saved r lo hi }) (omega arith) c
      other (ground (arith, apart)) room
