-- ===== src/Tests/Repeats.antt =====
-- Requests whose operation id is that of the answer that waits in the sample server.
use cache_system_of_lease_me.Base.{ℕ, ◌≡◌, refl, List, [], ◌∷◌, some, none, arith}
use cache_system_of_lease_me.Outcome.{done, thrown, csn, error_sys_routine}
use cache_system_of_lease_me.Standard.Map.{lookup}
use cache_system_of_lease_me.DataCenter.Invariant.{content}
use cache_system_of_lease_me.DataCenter.Unleased.{IsUnleased}
use cache_system_of_lease_me.Message.{CacheMessage, Wire}
use cache_system_of_lease_me.Server.{Server}
use cache_system_of_lease_me.Server.Operations.{process_read, process_update}
use cache_system_of_lease_me.Server.Repeats.{
  Dangling, process_read_repeated, process_update_repeated,
}
use cache_system_of_lease_me.Tests.{sample, sample-IsSteady}
use cache_system_of_lease_me.Tests.Messages.{
  header, message, read_seven, update_seven, waiting, waiting_server, waits_for_five,
  server-IsCenter, server-IsPrompt,
}

-- A message is written as whether it has a header.
abbrev header_wire : Wire
header_wire = record { parse = λ bytes. none; serialize = serialize }
  where
    serialize : CacheMessage → List ℕ
    serialize m = elim m.header [ none ↦ [] | some h ↦ 1 ∷ [] ]

waiting_server-IsUnleased : IsUnleased 7 waiting_server.center
unfolding lookup
waiting_server-IsUnleased el h = absurd (cc)

process_read_repeated_example :
    (s' : Server) × (process_read header_wire 3 (message 0x1001) waiting_server
      ≡ thrown (csn error_sys_routine) s')
    × (s'.sent ≡ [])
    × Dangling header_wire waiting_server s'
process_read_repeated_example =
    process_read_repeated header_wire sample-IsSteady refl 3 read_seven (header 0x1001)
      (message 0x1001) waiting_server waiting server-IsCenter server-IsPrompt (omega arith) refl
      waits_for_five refl

process_update_repeated_example :
    (s' : Server) × (process_update header_wire 3 (message 0x1003) waiting_server ≡ done tt s')
    × (s'.sent ≡ (3, 1 ∷ []) ∷ [])
    × (content s'.center 7 ≡ some (43 ∷ []))
    × Dangling header_wire waiting_server s'
process_update_repeated_example =
    process_update_repeated header_wire sample-IsSteady (λ e. cc) 3 update_seven (header 0x1003)
      (message 0x1003) waiting_server waiting server-IsCenter waiting_server-IsUnleased
      (omega arith) refl (omega arith) waits_for_five refl
