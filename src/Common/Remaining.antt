-- ===== src/Common/Remaining.antt =====
-- expire_milliseconds_of_timestamp (common.h): how long a lease still runs.
use cache_system_of_lease_me.Base.{
  ℕ, suc, ◌+◌, ◌-◌, ◌%◌, ◌^◌, ◌≤◌, ◌<◌, ◌≡◌, ◌∙◌, arith, ltb, leb, if◌then◌else◌, false, Bool-cases,
  inl, inr,
}

pub data ℤ : Type 0 where
  pos negsuc : ℕ → ℤ

-- The difference of two time stamps, in milliseconds.
abbrev pub difference : ℕ → ℕ → ℤ
difference t now = if leb now t then pos (t - now) else negsuc (now - suc t)

-- A 32-bit word as an int32_t.
abbrev pub int32_of : ℕ → ℤ
int32_of w = if ltb w (2 ^ 31) then pos w else negsuc (2 ^ 32 - suc w)

-- The cast takes the low 32 bits of the 64-bit difference.
unfoldable pub expire_milliseconds_of_timestamp : ℕ → ℕ → ℤ
expire_milliseconds_of_timestamp t now = int32_of ((t + (2 ^ 32 - now % 2 ^ 32)) % 2 ^ 32)

ahead :
    (t now : ℕ)
    → t < now + 2 ^ 31
    → now ≤ t
    → (t % 2 ^ 32 + (2 ^ 32 - now % 2 ^ 32)) % 2 ^ 32 ≡ t - now
ahead t now above le = omega (arith, above, le)

behind :
    (t now : ℕ)
    → now ≤ t + 2 ^ 31
    → t < now
    → (t % 2 ^ 32 + (2 ^ 32 - now % 2 ^ 32)) % 2 ^ 32 ≡ 2 ^ 32 - (now - t)
behind t now below lt = omega (arith, below, lt)

int32_of-pos : (w d : ℕ) → w ≡ d → d < 2 ^ 31 → int32_of w ≡ pos d
int32_of-pos w d is small = ground (arith, is, small)

int32_of-negsuc : (w d : ℕ) → w ≡ 2 ^ 32 - suc d → d < 2 ^ 31 → int32_of w ≡ negsuc d
int32_of-negsuc w d is small =
    let big : ltb w (2 ^ 31) ≡ false = ground (arith, is, small) in
    let back : 2 ^ 32 - suc w ≡ d = omega (arith, is, small) in rw (big, back)

pub expire_of_cut :
    (t now : ℕ)
    → t < now + 2 ^ 31
    → now ≤ t + 2 ^ 31
    → expire_milliseconds_of_timestamp (t % 2 ^ 32) now ≡ difference t now
unfolding expire_milliseconds_of_timestamp
expire_of_cut t now above below = elim (Bool-cases (leb now t)) [
  | inl le ↦
      int32_of-pos _ (t - now) (ahead t now above (ground (arith, le))) (omega (arith, above))
      ∙ ground (arith, le)
  | inr gt ↦
      let later : t < now = ground (arith, gt) in
      int32_of-negsuc _ (now - suc t) (behind t now below later ∙ omega (arith, later))
        (omega (arith, below, later))
      ∙ ground (arith, gt)
]
