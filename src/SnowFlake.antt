-- ===== src/SnowFlake.antt =====
-- cache_system/include/snowflake.h: the generator of operation ids.
pub mod Clash
pub mod Digits
pub mod Distinct
use Prim.Native.Nat.{bit_and, bit_or}
use cache_system_of_lease_me.Base.{ℕ, ◌+◌, ◌-◌, ◌*◌, ◌%◌, ◌^◌}

-- `worker_id_`, which is never set or read, is left out.
pub record SnowFlake : Type 0 where
  pub machine_id : ℕ
  pub sequence : ℕ

-- The bits that stand for the machine and for the worker, both given as 8-bit numbers.
unfoldable pub datacenter_bits : ℕ → ℕ
datacenter_bits datacenter_id = bit_and (datacenter_id * 2 ^ 15) 0x3E0000

unfoldable pub worker_bits : ℕ → ℕ
worker_bits worker_id = bit_and (worker_id * 2 ^ 10) 0x1F0000

-- The constructor.
unfoldable pub new_snow_flake : ℕ → ℕ → SnowFlake
unfolding datacenter_bits worker_bits
new_snow_flake datacenter_id worker_id = record {
  machine_id = bit_or (datacenter_bits datacenter_id) (worker_bits worker_id);
  sequence = 0;
}

-- generate_uniform_id at a time stamp. `~0x3F0000` is a negative int, whose 64-bit word it is.
unfoldable pub generate_uniform_id : ℕ → SnowFlake → ℕ × SnowFlake
generate_uniform_id timestamp s =
    let sequence = (s.sequence + 1) % 2 ^ 16 in
    (
      bit_or (bit_or (bit_and (timestamp * 2 ^ 22 % 2 ^ 64) (2 ^ 64 - 1 - 0x3F0000)) s.machine_id)
          (bit_and sequence 0xFFF),
      record s { sequence = sequence },
    )
