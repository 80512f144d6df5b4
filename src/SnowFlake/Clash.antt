-- ===== src/SnowFlake/Clash.antt =====
-- Which generators make the same ids (snowflake.h).
use cache_system_of_lease_me.Base.{
  if◌then◌else◌, false, ◌≤◌, subst, ℕ_discrete, ℕ, zero, suc, ◌+◌, ◌*◌, ◌<◌, ◌≡◌, refl, ap, Bool,
  true, ◌==◌, arith,
}
use cache_system_of_lease_me.SnowFlake.{
  datacenter_bits, worker_bits, new_snow_flake, generate_uniform_id,
}
use Prim.Native.Nat.{bit_or}

-- Whether the `count` numbers from `first` on pass a test.
passes : (ℕ → Bool) → ℕ → ℕ → Bool
passes test zero first = true
passes test (suc count) first =
    let later = passes test count (suc first) in if test first then later else false

passes_each :
    (test : ℕ → Bool) (count first i : ℕ)
    → passes test count first ≡ true
    → first ≤ i
    → i < first + count
    → test i ≡ true
unfolding passes
passes_each test zero first i every low high = absurd (omega arith)
passes_each test (suc count) first i every low high = elim (ℕ_discrete first i) [
  | yes here ↦ subst (λ n. test n ≡ true) here (ground arith)
  | no further ↦ passes_each test count (suc first) i (ground arith) (omega arith) (omega arith)
]

worker_table : passes (λ x. worker_bits x == 0) 64 0 ≡ true
unfolding passes worker_bits
worker_table = refl

worker_bits-zero : (x : ℕ) → x < 64 → worker_bits x ≡ 0
worker_bits-zero x h =
    let tested : (worker_bits x == 0) ≡ true =
      passes_each (λ y. worker_bits y == 0) 64 0 x worker_table (omega arith) (omega arith) in
    ground arith

datacenter_table :
    passes (λ x. passes (λ j. datacenter_bits (4 * x + j) == datacenter_bits (4 * x)) 4 0) 64 0
    ≡ true
unfolding passes datacenter_bits
datacenter_table = refl

datacenter_bits-same :
    (x j : ℕ) → x < 64 → j < 4 → datacenter_bits (4 * x + j) ≡ datacenter_bits (4 * x)
datacenter_bits-same x j h k =
    let row =
      passes_each (λ y. passes (λ i. datacenter_bits (4 * y + i) == datacenter_bits (4 * y)) 4 0) 64
        0 x datacenter_table (omega arith) (omega arith) in
    let tested : (datacenter_bits (4 * x + j) == datacenter_bits (4 * x)) ≡ true =
      passes_each (λ i. datacenter_bits (4 * x + i) == datacenter_bits (4 * x)) 4 0 j row
        (omega arith) (omega arith) in
    ground arith

-- Generators of workers below 64, on machines whose 8-bit ids differ in the lowest two bits only,
-- are the same, so at one time stamp they generate the same id.
pub generate_uniform_id_clash :
    (x i j worker worker' timestamp : ℕ)
    → x < 64
    → i < 4
    → j < 4
    → worker < 64
    → worker' < 64
    → generate_uniform_id timestamp (new_snow_flake (4 * x + i) worker)
      ≡ generate_uniform_id timestamp (new_snow_flake (4 * x + j) worker')
unfolding new_snow_flake
generate_uniform_id_clash x i j worker worker' timestamp h hi hj hw hw' =
    let same : bit_or (datacenter_bits (4 * x + i)) (worker_bits worker)
        ≡ bit_or (datacenter_bits (4 * x + j)) (worker_bits worker') =
      rw (
        datacenter_bits-same x i h hi,
        datacenter_bits-same x j h hj,
        worker_bits-zero worker hw,
        worker_bits-zero worker' hw',
      ) in
    ap (λ m. generate_uniform_id timestamp (record { machine_id = m; sequence = 0 })) same
