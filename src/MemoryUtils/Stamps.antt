-- ===== src/MemoryUtils/Stamps.antt =====
-- The time stamps of src/include/memoryUtils.hpp.
use boilerplate_thread_messa.Prelude.{
  ℕ, zero, suc, Bool, true, false, ◌&&◌, ◌==◌, if◌then◌else◌, ◌-◌, ◌/◌, ◌%◌, ◌≤◌, ◌<◌, ◌≡◌, refl,
  ap, ◌∙◌, [], ◌∷◌, ◌++◌, length, length-append, arith,
}
use boilerplate_thread_messa.Prelude.Text.{Text, text, to_string}
use boilerplate_thread_messa.Prelude.Decimals.{
  value, value-to_string, digit_bound, length-to_string, is_digit, AllDigits, AllDigits-append,
  to_string-AllDigits,
}
use boilerplate_thread_messa.MemoryUtils.{replicate, take, zero_padded, Tm, current_timestamp}

abbrev pub drop : ℕ → Text → Text
drop zero cs = cs
drop (suc n) [] = []
drop (suc n) (c ∷ cs) = drop n cs

length-replicate : (n c : ℕ) → length (replicate n c) ≡ n
length-replicate zero c = refl
length-replicate (suc n) c = ap suc (length-replicate n c)

value-zeros : (n : ℕ) (cs : Text) → value 0 (replicate n b'0' ++ cs) ≡ value 0 cs
value-zeros zero cs = refl
value-zeros (suc n) cs = value-zeros n cs

-- A padded number is as wide as asked for, and its digits give the number.
zero_padded_lem :
    (width n : ℕ)
    → n < digit_bound (suc width)
    → (length (zero_padded (suc width) n) ≡ suc width) × (value 0 (zero_padded (suc width) n) ≡ n)
unfolding zero_padded
zero_padded_lem width n b =
    let zeros = suc width - length (to_string n) in
    (
      omega (
        arith,
        length-append (replicate zeros b'0') (to_string n),
        length-replicate zeros b'0',
        length-to_string width n b,
      ),
      value-zeros zeros (to_string n) ∙ value-to_string n,
    )

is_digit-replicate : (n : ℕ) → AllDigits (replicate n b'0')
is_digit-replicate zero = tt
is_digit-replicate (suc n) = (refl, is_digit-replicate n)

-- A padded number has digits only.
zero_padded-AllDigits : (width n : ℕ) → AllDigits (zero_padded width n)
unfolding zero_padded
zero_padded-AllDigits width n =
    AllDigits-append (replicate (width - length (to_string n)) b'0') (to_string n)
      (is_digit-replicate (width - length (to_string n))) (to_string-AllDigits n)

-- A text of the form of a pattern: `d` stands for a digit, every other character for itself.
abbrev pub fits : Text → Text → Bool
fits [] [] = true
fits [] (c ∷ cs) = false
fits (p ∷ ps) [] = false
fits (p ∷ ps) (c ∷ cs) = (if p == b'd' then is_digit c else c == p) && fits ps cs

fits-append :
    (ps qs cs ds : Text) → fits ps cs ≡ true → fits qs ds ≡ true → fits (ps ++ qs) (cs ++ ds) ≡ true
fits-append [] qs [] ds h k = k
fits-append [] qs (c ∷ cs) ds h k = cc
fits-append (p ∷ ps) qs [] ds h k = cc
fits-append (p ∷ ps) qs (c ∷ cs) ds h k = ground (arith, fits-append ps qs cs ds)

fits_digits : (n : ℕ) (cs : Text) → length cs ≡ n → AllDigits cs → fits (replicate n b'd') cs ≡ true
fits_digits zero [] e h = refl
fits_digits zero (c ∷ cs) e h = absurd (omega arith)
fits_digits (suc n) [] e h = absurd (omega arith)
fits_digits (suc n) (c ∷ cs) e (h, hs) = rw h (fits_digits n cs (omega (arith, e)) hs)

take-append : (n : ℕ) (cs ds : Text) → length cs ≡ n → take n (cs ++ ds) ≡ cs
take-append zero [] ds e = refl
take-append zero (c ∷ cs) ds e = absurd (omega arith)
take-append (suc n) [] ds e = absurd (omega arith)
take-append (suc n) (c ∷ cs) ds e = ap (λ l. c ∷ l) (take-append n cs ds (omega (arith, e)))

take-all : (n : ℕ) (cs : Text) → length cs ≤ n → take n cs ≡ cs
take-all zero [] h = refl
take-all zero (c ∷ cs) h = absurd (omega arith)
take-all (suc n) [] h = refl
take-all (suc n) (c ∷ cs) h = ap (λ l. c ∷ l) (take-all n cs (omega (arith, h)))

drop-append : (n c : ℕ) (cs ds : Text) → length cs ≡ n → drop (suc n) (cs ++ (c ∷ ds)) ≡ ds
drop-append zero c [] ds e = refl
drop-append zero c (x ∷ cs) ds e = absurd (omega arith)
drop-append (suc n) c [] ds e = absurd (omega arith)
drop-append (suc n) c (x ∷ cs) ds e = drop-append n c cs ds (omega (arith, e))

-- The hour, the minute, the second and the microsecond that a stamp shows.
abbrev pub read_stamp : Text → ℕ × ℕ × ℕ × ℕ
read_stamp t =
    let from_minute = drop 3 t in
    let from_second = drop 3 from_minute in
    (
      value 0 (take 2 t),
      value 0 (take 2 from_minute),
      value 0 (take 2 from_second),
      value 0 (drop 3 from_second),
    )

-- The ranges that `localtime_r` keeps to.
abbrev pub IsClockTime : Tm → Type 0
IsClockTime tm = (tm.tm_hour < 24) × (tm.tm_min < 60) × (tm.tm_sec ≤ 60)

module _ (h m s us : Text) (eh : length h ≡ 2) (em : length m ≡ 2) (es : length s ≡ 2) where
  abbrev stamp : Text
  stamp = h ++ (b':' ∷ (m ++ (b':' ∷ (s ++ (b'.' ∷ us)))))

  read_stamp-stamp : read_stamp stamp ≡ (value 0 h, value 0 m, value 0 s, value 0 us)
  read_stamp-stamp =
      rw
        (
          take-append 2 h (b':' ∷ (m ++ (b':' ∷ (s ++ (b'.' ∷ us))))) eh,
          drop-append 2 b':' h (m ++ (b':' ∷ (s ++ (b'.' ∷ us)))) eh,
          take-append 2 m (b':' ∷ (s ++ (b'.' ∷ us))) em,
          drop-append 2 b':' m (s ++ (b'.' ∷ us)) em,
          take-append 2 s (b'.' ∷ us) es,
          drop-append 2 b'.' s us es,
        )
        refl

  length-stamp-le : length us ≡ 6 → length stamp ≤ 31
  length-stamp-le eu = omega (
    arith,
    length-append h (b':' ∷ (m ++ (b':' ∷ (s ++ (b'.' ∷ us))))),
    length-append m (b':' ∷ (s ++ (b'.' ∷ us))),
    length-append s (b'.' ∷ us),
  )

  fits-stamp :
      AllDigits h
      → AllDigits m
      → AllDigits s
      → AllDigits us
      → length us ≡ 6
      → fits (text "dd:dd:dd.dddddd") stamp ≡ true
  fits-stamp dh dm ds du eu =
      fits-append (text "dd") (text ":dd:dd.dddddd") h (b':' ∷ (m ++ (b':' ∷ (s ++ (b'.' ∷ us)))))
        (fits_digits 2 h eh dh)
        (fits-append (text "dd") (text ":dd.dddddd") m (b':' ∷ (s ++ (b'.' ∷ us)))
          (fits_digits 2 m em dm)
          (fits-append (text "dd") (text ".dddddd") s (b'.' ∷ us) (fits_digits 2 s es ds)
            (fits_digits 6 us eu du)))

module _ (ticks_per_us : ℕ) (to_time_t : ℕ → ℕ) (localtime_r : ℕ → Tm) where
  -- A stamp has the form `dd:dd:dd.dddddd`, with a digit at each `d`: the buffer holds it all, and
  -- it shows exactly the local time's hour, minute and second and the clock's microsecond, where
  -- `localtime_r` keeps to its ranges.
  pub current_timestamp_lem :
      (now : ℕ)
      → IsClockTime (localtime_r (to_time_t now))
      → let tm = localtime_r (to_time_t now) in
        let t = current_timestamp ticks_per_us to_time_t localtime_r now in
        (fits (text "dd:dd:dd.dddddd") t ≡ true)
        × (read_stamp t ≡ (tm.tm_hour, tm.tm_min, tm.tm_sec, now / ticks_per_us % 1000000))
  unfolding current_timestamp
  current_timestamp_lem now (hour_in, min_in, sec_in) =
      let tm = localtime_r (to_time_t now) in
      let us = now / ticks_per_us % 1000000 in
      let (lh, vh) = zero_padded_lem 1 tm.tm_hour (omega (arith, hour_in)) in
      let (lm, vm) = zero_padded_lem 1 tm.tm_min (omega (arith, min_in)) in
      let (ls, vs) = zero_padded_lem 1 tm.tm_sec (omega (arith, sec_in)) in
      let (lu, vu) = zero_padded_lem 5 us (omega arith) in
      let h = zero_padded 2 tm.tm_hour in
      let m = zero_padded 2 tm.tm_min in
      let s = zero_padded 2 tm.tm_sec in
      let u = zero_padded 6 us in
      let whole = take-all 31 (stamp h m s u lh lm ls) (length-stamp-le h m s u lh lm ls lu) in
      (
        ap (fits (text "dd:dd:dd.dddddd")) whole
            ∙ fits-stamp h m s u lh lm ls (zero_padded-AllDigits 2 tm.tm_hour)
                (zero_padded-AllDigits 2 tm.tm_min) (zero_padded-AllDigits 2 tm.tm_sec)
                (zero_padded-AllDigits 6 us) lu,
        ap read_stamp whole ∙ read_stamp-stamp h m s u lh lm ls ∙ (λ i. (vh i, vm i, vs i, vu i)),
      )
