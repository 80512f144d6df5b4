-- ===== src/Log.antt =====
-- write_log of cache_system/src/common.cc, which prints a line into a buffer of 256 characters and
-- writes it out. Characters are numbers. The variable arguments are taken as the text that they
-- print.
pub mod Bounds
use cache_system_of_lease_me.Base.{
  ℕ, zero, suc, ◌+◌, ◌*◌, ◌-◌, ◌/◌, ◌%◌, ◌^◌, List, [], ◌∷◌, ◌++◌, ◌==◌, ltb, leb, if◌then◌else◌,
}
use cache_system_of_lease_me.Outcome.{M, done, undefined, ◌>>=◌}
use cache_system_of_lease_me.Standard.Vector.{length, take, drop}

-- BUFFER_LENGTH.
abbrev pub buffer_length : ℕ
buffer_length = 256

abbrev zeros : ℕ → List ℕ
zeros zero = []
zeros (suc n) = 0 ∷ zeros n

abbrev pub empty_buffer : List ℕ
empty_buffer = zeros buffer_length

-- basename: what follows the last slash.
unfoldable pub after_slash : List ℕ → List ℕ → List ℕ
after_slash base [] = base
after_slash base (c ∷ cs) =
    let here = after_slash cs cs in
    let later = after_slash base cs in if c == 47 then here else later

abbrev pub basename : List ℕ → List ℕ
basename s = after_slash s s

-- %d of a number that is not negative. A number has no more digits than it counts.
unfoldable pub digits : ℕ → ℕ → List ℕ
digits zero n = []
digits (suc fuel) n =
    let rest = digits fuel (n / 10) in
    if ltb n 10 then (48 + n) ∷ [] else rest ++ (48 + n % 10) ∷ []

abbrev pub decimal : ℕ → List ℕ
decimal n = digits (suc n) n

-- struct tm, as far as it is used.
pub record Tm : Type 0 where
  pub tm_year : ℕ
  pub tm_mon : ℕ
  pub tm_mday : ℕ
  pub tm_hour : ℕ
  pub tm_min : ℕ
  pub tm_sec : ℕ

-- "%d-%d-%d %d:%d:%d" of get_time_cstr.
unfoldable pub time_text : Tm → List ℕ
unfolding digits
time_text c =
    decimal (c.tm_year + 1900)
    ++ 45 ∷ decimal (c.tm_mon + 1)
    ++ 45 ∷ decimal c.tm_mday
    ++ 32 ∷ decimal c.tm_hour
    ++ 58 ∷ decimal c.tm_min
    ++ 58 ∷ decimal c.tm_sec

-- " %s %s() %d:".
unfoldable pub place_text : List ℕ → List ℕ → ℕ → List ℕ
unfolding after_slash digits
place_text file_path func_name line_no =
    32 ∷ basename file_path ++ 32 ∷ func_name ++ 40 ∷ 41 ∷ 32 ∷ decimal line_no ++ 58 ∷ []

-- snprintf at the offset `p` of the buffer, with room for `n` characters: the text is cut to fit
-- with the zero behind it, and its full length is returned. Outside the buffer it is undefined.
unfoldable pub snprintf : ℕ → ℕ → List ℕ → M (List ℕ) ℕ
snprintf p n text buffer =
    let written = if n == 0 then [] else take (n - 1) text ++ 0 ∷ [] in
    if leb (p + length written) (length buffer)
    then done (length text) (take p buffer ++ written ++ drop (p + length written) buffer)
    else undefined buffer

-- BUFFER_LENGTH - length, as a size_t.
abbrev pub room : ℕ → ℕ
room length = if leb length buffer_length then buffer_length - length else 2 ^ 64 + 256 - length

-- `::write` of the first characters of the buffer.
unfoldable pub write : ℕ → M (List ℕ) (List ℕ)
write n buffer = if leb n (length buffer) then done (take n buffer) buffer else undefined buffer

-- What goes to the standard output; `write_log` returns its length.
unfoldable pub write_log : Tm → List ℕ → List ℕ → ℕ → List ℕ → M (List ℕ) (List ℕ)
unfolding time_text place_text snprintf write
write_log now file_path func_name line_no message = do
  dated ← snprintf 0 buffer_length (time_text now)
  placed ← snprintf dated (room dated) (place_text file_path func_name line_no)
  printed ← snprintf (dated + placed) (room (dated + placed)) message
  write (dated + placed + printed)
