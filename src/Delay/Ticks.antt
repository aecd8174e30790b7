-- ===== src/Delay/Ticks.antt =====
-- Comparing ticks across the wrap of the 32-bit counter.
use mini_rtos.Base.{ℕ, ◌+◌, ◌≤◌, ◌≡◌, leb, arith}
use mini_rtos.Kernel.{u32, max_delay_ticks}
use mini_rtos.Delay.{tick_reached}

-- Where the counter started anywhere, the delay is at most OS_MAX_DELAY_TICKS and the elapsed
-- ticks exceed it by at most OS_MAX_DELAY_TICKS, os_TickReached on the wrapped 32-bit ticks says
-- whether the elapsed ticks make up the delay.
pub tick_reached-elapsed :
    (start delay elapsed : ℕ)
    → delay ≤ max_delay_ticks
    → elapsed ≤ delay + max_delay_ticks
    → tick_reached (u32 (start + elapsed)) (u32 (start + delay)) ≡ leb delay elapsed
unfolding tick_reached
tick_reached-elapsed start delay elapsed h l = ground arith
