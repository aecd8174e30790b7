-- ===== src/Statics/Sound.antt =====
-- Semaphores and queues in use are valid.
use mini_rtos.Base.{ℕ, ◌≤◌, ◌<◌, ◌≡◌, refl, true, arith, ◌==◌, update, if_both, ap}
use mini_rtos.Kernel.{Kernel, Sem, Queue, Mutex, Status}
use mini_rtos.Queue.Ring.{Ring}
use mini_rtos.Mutex.{set_result}
use mini_rtos.Statics.{Statics, Same, Fixed, Fixed-trans, Fixed-refl, Same-Fixed}

pub record ValidSem (x : Sem) : Type 0 where
  pub positive : 0 < x.maximum_count
  pub bounded : x.count ≤ x.maximum_count

pub record Sound (k : Kernel) : Type 0 where
  pub semaphores : (s : ℕ) → (k.semaphores s).used ≡ true → ValidSem (k.semaphores s)
  pub queues : (q : ℕ) → (k.queues q).used ≡ true → Ring (k.queues q)

-- A step that keeps flags and identities, and valid objects valid.
pub record Advance (k k' : Kernel) : Type 0 where
  pub fixed : Fixed k k'
  pub sound : Sound k → Sound k'

pub Advance-trans : {k k' k'' : Kernel} → Advance k k' → Advance k' k'' → Advance k k''
Advance-trans r s = record { fixed = Fixed-trans r.fixed s.fixed; sound = λ v. s.sound (r.sound v) }

pub Same-Advance : {k k' : Kernel} → Same k k' → Advance k k'
Same-Advance {k} {k'} r = record {
  fixed = Same-Fixed r;
  sound = λ v. record { semaphores = rw (sems r) v.semaphores; queues = rw (rings r) v.queues };
}
  where
    sems : Same k k' → k'.semaphores ≡ k.semaphores
    sems r = ap (λ (x : Statics). x.semaphores) (r.same 0)

    rings : Same k k' → k'.queues ≡ k.queues
    rings r = ap (λ (x : Statics). x.queues) (r.same 0)

pub Advance-refl : (k : Kernel) → Advance k k
Advance-refl k = record { fixed = Fixed-refl k; sound = λ v. v }

abbrev pub AdvanceAfter {ℓ} : {A : Type ℓ} → Kernel → Kernel × A → Type 0
AdvanceAfter k r = Advance k r.0

pub set_result-Advance : (k : Kernel) (t : ℕ) (status : Status) → Advance k (set_result k t status)
set_result-Advance k t status = Same-Advance (record { same = λ u. ground arith })

-- Owners of mutexes
pub owner-Advance : (k : Kernel) (mutexes : ℕ → Mutex) → Advance k (record k { mutexes = mutexes })
owner-Advance k mutexes = record {
  fixed = record { same = λ u. refl };
  sound = λ v. record { semaphores = v.semaphores; queues = v.queues };
}

-- One semaphore, ...
pub semaphore-Advance :
    (k : Kernel) (s : ℕ) (x : Sem)
    → (Sound k → x.used ≡ true → ValidSem x)
    → Advance k (record k { semaphores = update k.semaphores s x })
semaphore-Advance k s x valid = record {
  fixed = record { same = λ u. refl };
  sound = λ v. record {
    semaphores = λ i.
        if_both (λ (y : Sem). y.used ≡ true → ValidSem y) (i == s) (λ _. valid v)
          (λ _. v.semaphores i);
    queues = v.queues;
  };
}

-- ... one queue and the memory.
pub queue-Advance :
    (k : Kernel) (q : ℕ) (x : Queue) (memory : ℕ → ℕ)
    → (Sound k → x.used ≡ true → Ring x)
    → Advance k (record k { queues = update k.queues q x; memory = memory })
queue-Advance k q x memory valid = record {
  fixed = record { same = λ u. refl };
  sound = λ v. record {
    semaphores = v.semaphores;
    queues = λ i.
        if_both (λ (y : Queue). y.used ≡ true → Ring y) (i == q) (λ _. valid v) (λ _. v.queues i);
  };
}

pub memory-Advance : (k : Kernel) (memory : ℕ → ℕ) → Advance k (record k { memory = memory })
memory-Advance k memory = record {
  fixed = record { same = λ u. refl };
  sound = λ v. record { semaphores = v.semaphores; queues = v.queues };
}
