-- ===== src/SnowFlake/Distinct.antt =====
-- The ids of one generator (snowflake.h): they are 64-bit numbers, and 4096 calls in a row make
-- different ones.
use Prim.Native.Nat.{bit_and, bit_or}
use cache_system_of_lease_me.Base.{
  ℕ, zero, suc, ◌+◌, ◌-◌, ◌*◌, ◌%◌, ◌^◌, ◌<◌, ◌≡◌, ◌≢◌, refl, ap, ◌∙◌, arith,
}
use cache_system_of_lease_me.SnowFlake.{
  SnowFlake, datacenter_bits, worker_bits, new_snow_flake, generate_uniform_id,
}
use cache_system_of_lease_me.SnowFlake.Digits.{
  low, low-or_zero, low-and_zero, low-zero_and, low-and_ones, or_lt, and_lt, low-twelve, ones,
}

-- The generator after `n` calls, at the time stamps given.
unfoldable pub after_calls : (ℕ → ℕ) → ℕ → SnowFlake → SnowFlake
after_calls stamps zero s = s
after_calls stamps (suc n) s = (generate_uniform_id (stamps n) (after_calls stamps n s)).1

-- The id of the call after `n` others.
abbrev pub id_at : (ℕ → ℕ) → ℕ → SnowFlake → ℕ
id_at stamps n s = (generate_uniform_id (stamps n) (after_calls stamps n s)).0

-- A machine's bits leave the lowest twelve free.
pub record IsMachine (s : SnowFlake) : Type 0 where
  pub free : low 12 s.machine_id ≡ 0
  pub fits : s.machine_id < 2 ^ 64

pub new-IsMachine :
    (datacenter_id worker_id : ℕ)
    → datacenter_id < 256
    → worker_id < 256
    → IsMachine (new_snow_flake datacenter_id worker_id)
unfolding new_snow_flake datacenter_bits worker_bits low
new-IsMachine datacenter_id worker_id h g = record {
  free =
      low-or_zero 12 _ _ (low-and_zero 12 (datacenter_id * 2 ^ 15) 0x3E0000 refl)
      ∙ low-and_zero 12 (worker_id * 2 ^ 10) 0x1F0000 refl;
  fits =
      or_lt 64 _ _ (and_lt 64 (datacenter_id * 2 ^ 15) 0x3E0000 (omega arith))
        (and_lt 64 (worker_id * 2 ^ 10) 0x1F0000 (omega arith));
}

sequence_lem :
    (timestamp : ℕ) (s : SnowFlake)
    → (generate_uniform_id timestamp s).1 ≡ record s { sequence = (s.sequence + 1) % 2 ^ 16 }
unfolding generate_uniform_id
sequence_lem timestamp s = refl

twelve_ones : low 12 0xFFF ≡ ones 12
unfolding low ones
twelve_ones = refl

id_low :
    (timestamp : ℕ) (s : SnowFlake)
    → IsMachine s
    → (generate_uniform_id timestamp s).0 % 4096 ≡ (s.sequence + 1) % 4096
unfolding generate_uniform_id
id_low timestamp s m = omega (
  arith,
  low-twelve (
      bit_or (bit_or (bit_and time mask) s.machine_id) (bit_and ((s.sequence + 1) % 2 ^ 16) 0xFFF)),
  low-or_zero 12 (bit_or (bit_and time mask) s.machine_id)
      (bit_and ((s.sequence + 1) % 2 ^ 16) 0xFFF)
      (low-or_zero 12 (bit_and time mask) s.machine_id
          (low-zero_and 12 time mask (omega (arith, low-twelve time)))
        ∙ m.free),
  low-and_ones 12 ((s.sequence + 1) % 2 ^ 16) 0xFFF twelve_ones,
  low-twelve ((s.sequence + 1) % 2 ^ 16),
)
  where
    time : ℕ
    time = timestamp * 2 ^ 22 % 2 ^ 64

    mask : ℕ
    mask = 2 ^ 64 - 1 - 0x3F0000

pub id_fits :
    (timestamp : ℕ) (s : SnowFlake) → IsMachine s → (generate_uniform_id timestamp s).0 < 2 ^ 64
unfolding generate_uniform_id
id_fits timestamp s m =
    or_lt 64 _ _ (or_lt 64 _ _ (and_lt 64 (timestamp * 2 ^ 22 % 2 ^ 64) _ (omega arith)) m.fits)
      (and_lt 64 ((s.sequence + 1) % 2 ^ 16) 0xFFF (omega arith))

after-IsMachine :
    (stamps : ℕ → ℕ) (n : ℕ) (s : SnowFlake) → IsMachine s → IsMachine (after_calls stamps n s)
unfolding after_calls generate_uniform_id
after-IsMachine stamps zero s m = m
after-IsMachine stamps (suc n) s m =
    let k = after-IsMachine stamps n s m in record { free = k.free; fits = k.fits }

after-sequence :
    (stamps : ℕ → ℕ) (n : ℕ) (s : SnowFlake)
    → (after_calls stamps n s).sequence % 4096 ≡ (s.sequence + n) % 4096
unfolding after_calls
after-sequence stamps zero s = omega arith
after-sequence stamps (suc n) s = omega (
  arith,
  after-sequence stamps n s,
  ap (λ (x : SnowFlake). x.sequence) (sequence_lem (stamps n) (after_calls stamps n s)),
)

new_sequence : (datacenter_id worker_id : ℕ) → (new_snow_flake datacenter_id worker_id).sequence ≡ 0
unfolding new_snow_flake
new_sequence datacenter_id worker_id = refl

-- The `n`th id of a new generator, `n` starting from 0, at any time stamps.
id_at-low :
    (stamps : ℕ → ℕ) (datacenter_id worker_id n : ℕ)
    → datacenter_id < 256
    → worker_id < 256
    → id_at stamps n (new_snow_flake datacenter_id worker_id) % 4096 ≡ (n + 1) % 4096
id_at-low stamps datacenter_id worker_id n h g = omega (
  arith,
  id_low (stamps n) (after_calls stamps n (new_snow_flake datacenter_id worker_id))
      (after-IsMachine stamps n _ (new-IsMachine datacenter_id worker_id h g)),
  after-sequence stamps n (new_snow_flake datacenter_id worker_id),
  new_sequence datacenter_id worker_id,
)

-- A generator with 8-bit ids of its machine and its worker, at whatever time stamps: every id fits
-- into 64 bits, and two of its ids are different if fewer than 4096 calls lie from one to the
-- other.
pub generate_uniform_id_distinct :
    (stamps : ℕ → ℕ) (datacenter_id worker_id i j : ℕ)
    → datacenter_id < 256
    → worker_id < 256
    → i < j
    → j < i + 4096
    → (id_at stamps i (new_snow_flake datacenter_id worker_id)
        ≢ id_at stamps j (new_snow_flake datacenter_id worker_id))
      × (id_at stamps i (new_snow_flake datacenter_id worker_id) < 2 ^ 64)
generate_uniform_id_distinct stamps datacenter_id worker_id i j h g later near = (
  λ same. absurd (
      omega (
        arith,
        same,
        id_at-low stamps datacenter_id worker_id i h g,
        id_at-low stamps datacenter_id worker_id j h g,
      )),
  id_fits (stamps i) (after_calls stamps i (new_snow_flake datacenter_id worker_id))
      (after-IsMachine stamps i _ (new-IsMachine datacenter_id worker_id h g)),
)
