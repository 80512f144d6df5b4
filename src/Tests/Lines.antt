-- ===== src/Tests/Lines.antt =====
-- A line of the log: "2019-5-28 9:5:0 a.cc f() 7:ok".
use cache_system_of_lease_me.Base.{ℕ, ◌<◌, ◌≡◌, refl, List, [], ◌∷◌, arith}
use cache_system_of_lease_me.Outcome.{done}
use cache_system_of_lease_me.Standard.Vector.{length}
use cache_system_of_lease_me.Log.{
  empty_buffer, buffer_length, Tm, digits, time_text, after_slash, place_text, write_log,
}
use cache_system_of_lease_me.Log.Bounds.{line_text, write_log_writes}

abbrev may : Tm
may = record { tm_year = 119; tm_mon = 4; tm_mday = 28; tm_hour = 9; tm_min = 5; tm_sec = 0 }

-- "src/a.cc".
abbrev path : List ℕ
path = 115 ∷ 114 ∷ 99 ∷ 47 ∷ 97 ∷ 46 ∷ 99 ∷ 99 ∷ []

-- "f".
abbrev func : List ℕ
func = 102 ∷ []

-- "ok".
abbrev ok : List ℕ
ok = 111 ∷ 107 ∷ []

fits : length (line_text may path func 7 ok) < buffer_length
unfolding time_text place_text after_slash digits
fits = omega arith

write_log_writes_example :
    (buffer : List ℕ) × (write_log may path func 7 ok empty_buffer
      ≡ done (line_text may path func 7 ok) buffer)
write_log_writes_example = write_log_writes may path func 7 ok fits

line :
    line_text may path func 7 ok
    ≡ 50 ∷ 48 ∷ 49 ∷ 57 ∷ 45 ∷ 53 ∷ 45 ∷ 50 ∷ 56 ∷ 32 ∷ 57 ∷ 58 ∷ 53 ∷ 58 ∷ 48 ∷ 32 ∷ 97 ∷ 46 ∷ 99
      ∷ 99 ∷ 32 ∷ 102 ∷ 40 ∷ 41 ∷ 32 ∷ 55 ∷ 58 ∷ 111 ∷ 107 ∷ []
unfolding time_text place_text after_slash digits
line = refl
