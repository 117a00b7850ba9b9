-- ===== src/Net/Bytes.antt =====
-- The byte loops compute what they should on the 32-bit number.
use wg_manager.Base.{ℕ, ◌+◌, ◌%◌, ◌^◌, ◌<◌, ◌≡◌, arith}
use wg_manager.Base.{nat_eq}
use wg_manager.Net.{next_ip}

-- `nextIP` adds one, and starts again at 0.0.0.0 behind 255.255.255.255.
pub next_ip_lem : (ip : ℕ) → ip < 2 ^ 32 → next_ip ip ≡ (ip + 1) % 2 ^ 32
unfolding next_ip
next_ip_lem ip h = ground arith
