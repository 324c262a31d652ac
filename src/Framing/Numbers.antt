-- ===== src/Framing/Numbers.antt =====
-- Numbers as eight bytes, and back.
use owl_nest.Base.{ℕ, ◌^◌, ◌<◌, ◌≡◌, refl, length, arith}
use owl_nest.Framing.{to_be_bytes, from_be_bytes, set_first}

pub length-to_be_bytes : (n : ℕ) → length (to_be_bytes n) ≡ 8
unfolding to_be_bytes
length-to_be_bytes n = refl

pub from_be_bytes-to_be_bytes : (n : ℕ) → n < 2 ^ 64 → from_be_bytes (to_be_bytes n) ≡ n
unfolding from_be_bytes to_be_bytes
from_be_bytes-to_be_bytes n h = omega arith

-- A length below 2 ^ 56 leaves the first byte free.
pub from_be_bytes-set_first :
    (n b : ℕ) → n < 2 ^ 56 → from_be_bytes (set_first 0 (set_first b (to_be_bytes n))) ≡ n
unfolding from_be_bytes to_be_bytes set_first
from_be_bytes-set_first n b h = omega arith
