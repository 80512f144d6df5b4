-- ===== src/Message/Header.antt =====
-- The check of a header and the dispatch by its type (protobuf_message_common.h and on_receive of
-- protobuf_message_server_impl.h).
use cache_system_of_lease_me.Base.{
  ◌≡◌, ◌∙◌, ap, ◌<◌, ◌≤◌, true, false, none, some, arith, Option-cases, Bool-cases, inl, inr,
}
use cache_system_of_lease_me.Message.{
  CacheMessage, CacheMessageHeader, header_magic, check_header, header_available, header_of,
}

-- A header of this protocol: its magic number, a known type and an operation id.
pub record IsAvailable (h : CacheMessageHeader) : Type 0 where
  pub magic : h.magic ≡ header_magic
  pub known : (0x1001 ≤ h.type) × (h.type ≤ 0x1006)
  pub numbered : 0 < h.op_id

pub check_header-IsAvailable : (h : CacheMessageHeader) → check_header h ≡ true → IsAvailable h
unfolding check_header
check_header-IsAvailable h e = record {
  magic = ground arith;
  known = (ground arith, ground arith);
  numbered = ground arith;
}

pub header_available-IsAvailable :
    (m : CacheMessage)
    → header_available m ≡ true
    → (h : CacheMessageHeader) × (m.header ≡ some h) × IsAvailable h
unfolding header_available
header_available-IsAvailable m e = elim (Option-cases m.header) [
  | inl missing ↦ absurd (ground (arith, missing))
  | inr (h, there) ↦ (h, there, check_header-IsAvailable h (rw there at e))
]

pub IsAvailable-check_header : (h : CacheMessageHeader) → IsAvailable h → check_header h ≡ true
unfolding check_header
IsAvailable-check_header h a = ground (arith, a.magic, a.known, a.numbered)

pub header_of-some :
    (m : CacheMessage) (h : CacheMessageHeader) → m.header ≡ some h → header_of m ≡ h
header_of-some m h there =
    ap (λ o. elim o [ none ↦ record { magic = 0; version = 0; type = 0; op_id = 0 } | some x ↦ x ])
      there

pub header_available-some :
    (m : CacheMessage) (h : CacheMessageHeader)
    → m.header ≡ some h
    → header_available m ≡ check_header h
unfolding header_available
header_available-some m h there = ap (λ o. elim o [ none ↦ false | some x ↦ check_header x ]) there

pub header_available-none : (m : CacheMessage) → m.header ≡ none → header_available m ≡ false
unfolding header_available
header_available-none m missing =
    ap (λ o. elim o [ none ↦ false | some x ↦ check_header x ]) missing

-- A header that is not of this protocol is not available.
pub header_available-refuses :
    (m : CacheMessage) (h : CacheMessageHeader)
    → m.header ≡ some h
    → ¬ IsAvailable h
    → header_available m ≡ false
header_available-refuses m h there bad = elim (Bool-cases (check_header h)) [
  | inl good ↦ absurd (bad (check_header-IsAvailable h good))
  | inr bad_header ↦ header_available-some m h there ∙ bad_header
]
