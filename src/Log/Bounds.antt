-- ===== src/Log/Bounds.antt =====
-- Which lines write_log (common.cc) writes out.
use cache_system_of_lease_me.Base.{
  ℕ, zero, suc, ◌+◌, ◌-◌, ◌≤◌, ◌<◌, ◌≡◌, refl, sym, ap, ◌∙◌, subst, List, [], ◌∷◌, ◌++◌, arith, leb,
  ◌==◌, true, false, if◌then◌else◌,
}
use cache_system_of_lease_me.Outcome.{done, bind-done}
use cache_system_of_lease_me.Standard.Vector.{length, take, drop, length-append, take-append}
use cache_system_of_lease_me.Log.{
  buffer_length, empty_buffer, Tm, time_text, place_text, snprintf, room, write, write_log,
}

-- The buffer holds the text, and has its size.
pub record Holds (text buffer : List ℕ) : Type 0 where
  pub rest : List ℕ
  pub split : buffer ≡ text ++ rest
  pub size : length buffer ≡ buffer_length

append_assoc : (a b c : List ℕ) → (a ++ b) ++ c ≡ a ++ (b ++ c)
append_assoc [] b c = refl
append_assoc (x ∷ a) b c = ap (◌∷◌ x) (append_assoc a b c)

take-all : (xs : List ℕ) (n : ℕ) → length xs ≤ n → take n xs ≡ xs
take-all [] zero h = refl
take-all [] (suc n) h = refl
take-all (x ∷ xs) zero h = absurd (omega (arith, h))
take-all (x ∷ xs) (suc n) h = ap (◌∷◌ x) (take-all xs n (omega (arith, h)))

length-drop : (n : ℕ) (xs : List ℕ) → length (drop n xs) ≡ length xs - n
length-drop zero xs = omega arith
length-drop (suc n) [] = omega arith
length-drop (suc n) (x ∷ xs) = omega (arith, length-drop n xs)

-- What snprintf writes of a text that fits.
written : ℕ → List ℕ → List ℕ
written n text = if n == 0 then [] else take (n - 1) text ++ 0 ∷ []

written-fits :
    (p : ℕ) (text : List ℕ)
    → p + length text < buffer_length
    → written (room p) text ≡ text ++ 0 ∷ []
unfolding written
written-fits p text fits =
    let is : room p ≡ 256 - p = ground (arith, fits) in
    let some_room : (room p == 0) ≡ false = ground (arith, is, fits) in
    let whole : take (room p - 1) text ≡ text =
      take-all text (room p - 1) (omega (arith, is, fits)) in
    rw (some_room, whole)

-- The buffer after a text behind another one.
after : List ℕ → List ℕ → List ℕ → List ℕ
after before text buffer =
    (before ++ (text ++ 0 ∷ [])) ++ drop (length before + length (text ++ 0 ∷ [])) buffer

after-Holds :
    (before text buffer : List ℕ)
    → length buffer ≡ buffer_length
    → length before + length text < buffer_length
    → Holds (before ++ text) (after before text buffer)
unfolding after
after-Holds before text buffer size fits =
    let rest = drop (length before + length (text ++ 0 ∷ [])) buffer in
    record {
      rest = 0 ∷ rest;
      split =
          append_assoc before (text ++ 0 ∷ []) rest
          ∙ ap (◌++◌ before) (append_assoc text (0 ∷ []) rest)
          ∙ sym (append_assoc before text (0 ∷ rest));
      size = omega (
        arith,
        size,
        fits,
        length-append (before ++ (text ++ 0 ∷ [])) rest,
        length-append before (text ++ 0 ∷ []),
        length-append text (0 ∷ []),
        length-drop (length before + length (text ++ 0 ∷ [])) buffer,
      );
    }

snprintf-fits :
    (before text buffer : List ℕ)
    → Holds before buffer
    → length before + length text < buffer_length
    → snprintf (length before) (room (length before)) text buffer
      ≡ done (length text) (after before text buffer)
unfolding snprintf written after
snprintf-fits before text buffer h fits =
    let kept : take (length before) buffer ≡ before =
      ap (take (length before)) h.split ∙ take-append before h.rest in
    let inside : leb (length before + length (text ++ 0 ∷ [])) (length buffer) ≡ true =
      ground (arith, h.size, fits, length-append text (0 ∷ [])) in
    rw (written-fits (length before) text fits, inside, kept)

write-done :
    (text buffer : List ℕ) (n : ℕ)
    → Holds text buffer
    → n ≡ length text
    → n < buffer_length
    → write n buffer ≡ done text buffer
unfolding write
write-done text buffer n h is small =
    let inside : leb n (length buffer) ≡ true = ground (arith, h.size, small) in
    let all : take n buffer ≡ text =
      ap (λ k. take k buffer) is ∙ ap (take (length text)) h.split ∙ take-append text h.rest in
    rw (inside, all)

empty_buffer-Holds : Holds [] empty_buffer
empty_buffer-Holds = record { rest = empty_buffer; split = refl; size = refl }

-- The text that a call of write_log stands for.
abbrev pub line_text : Tm → List ℕ → List ℕ → ℕ → List ℕ → List ℕ
line_text now file_path func_name line_no message =
    (time_text now ++ place_text file_path func_name line_no) ++ message

-- A line of less than 256 characters, with its date and place, is written out whole: no text is
-- cut, and the buffer is not overrun.
pub write_log_writes :
    (now : Tm) (file_path func_name : List ℕ) (line_no : ℕ) (message : List ℕ)
    → length (line_text now file_path func_name line_no message) < buffer_length
    → (buffer : List ℕ) × (write_log now file_path func_name line_no message empty_buffer
        ≡ done (line_text now file_path func_name line_no message) buffer)
unfolding write_log
write_log_writes now file_path func_name line_no message fits =
    let d = time_text now in
    let q = place_text file_path func_name line_no in
    let dq = length-append d q in
    let dqm = length-append (d ++ q) message in
    let first : 0 + length d < buffer_length = omega (arith, fits, dq, dqm) in
    let second : length d + length q < buffer_length = omega (arith, fits, dq, dqm) in
    let third : length (d ++ q) + length message < buffer_length = omega (arith, fits, dqm) in
    let b1 = after [] d empty_buffer in
    let h1 = after-Holds [] d empty_buffer refl first in
    let b2 = after d q b1 in
    let h2 = after-Holds d q b1 h1.size second in
    let b3 = after (d ++ q) message b2 in
    let h3 = after-Holds (d ++ q) message b2 h2.size third in
    (
      b3,
      bind-done (snprintf 0 buffer_length d) _ empty_buffer
            (snprintf-fits [] d empty_buffer empty_buffer-Holds first)
          ∙ bind-done (snprintf (length d) (room (length d)) q) _ b1
              (snprintf-fits d q b1 h1 second)
          ∙ bind-done (snprintf (length d + length q) (room (length d + length q)) message) _ b2 (
              subst (λ n. snprintf n (room n) message b2 ≡ done (length message) b3) dq
                (snprintf-fits (d ++ q) message b2 h2 third))
          ∙ write-done ((d ++ q) ++ message) b3 (length d + length q + length message) h3
              (omega (arith, dq, dqm)) (omega (arith, fits, dq, dqm)),
    )
