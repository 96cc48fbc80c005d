-- ===== src/MemoryUtils.antt =====
-- src/include/memoryUtils.hpp: the time stamps and the memory figures that the program prints. The
-- clock, `localtime_r` and `sscanf` are arguments.
pub mod Stamps
pub mod Status
mod Tests
use boilerplate_thread_messa.Prelude.{
  ℕ, zero, suc, ◌-◌, ◌/◌, ◌%◌, ◌==◌, Bool, true, false, Option, none, some, List, [], ◌∷◌, ◌++◌,
  length, if◌then◌else◌,
}
use boilerplate_thread_messa.Prelude.Int.{ℤ, pos, negsuc}
use boilerplate_thread_messa.Prelude.Text.{Text, text, to_string}

abbrev pub replicate : ℕ → ℕ → Text
replicate zero c = []
replicate (suc n) c = c ∷ replicate n c

abbrev pub take : ℕ → Text → Text
take zero cs = []
take (suc n) [] = []
take (suc n) (c ∷ cs) = c ∷ take n cs

-- `%0wd` of `snprintf` for a number that is not negative.
unfoldable pub zero_padded : ℕ → ℕ → Text
zero_padded width n = let digits = to_string n in replicate (width - length digits) b'0' ++ digits

-- The fields of `std::tm` that are printed.
pub record Tm : Type 0 where
  pub tm_hour : ℕ
  pub tm_min : ℕ
  pub tm_sec : ℕ

module _ (ticks_per_us : ℕ) (to_time_t : ℕ → ℕ) (localtime_r : ℕ → Tm) where
  -- `now` counts the ticks of the system clock since the epoch. `snprintf` keeps what goes into a
  -- buffer of 32 with its zero at the end.
  unfoldable pub current_timestamp : ℕ → Text
  unfolding zero_padded
  current_timestamp now =
      let us = now / ticks_per_us % 1000000 in
      let tm = localtime_r (to_time_t now) in
      take 31 (
        zero_padded 2 tm.tm_hour
        ++ (b':'
            ∷ (zero_padded 2 tm.tm_min
                ++ (b':' ∷ (zero_padded 2 tm.tm_sec ++ (b'.' ∷ zero_padded 6 us))))))

-- `line.compare(0, n, prefix) == 0` for a prefix of `n` characters.
abbrev pub starts_with : Text → Text → Bool
starts_with [] line = true
starts_with (c ∷ prefix) [] = false
starts_with (c ∷ prefix) (d ∷ line) = if c == d then starts_with prefix line else false

pub record Figures : Type 0 where
  pub vm_size : ℤ
  pub vm_rss : ℤ

-- The initial values of `vmSize` and `vmRSS`.
abbrev pub unknown : Figures
unknown = record { vm_size = negsuc 0; vm_rss = negsuc 0 }

-- `std::left` and `std::setw`.
unfoldable pub padded : ℕ → Text → Text
padded width t = t ++ replicate (width - length t) b' '

abbrev pub show : ℤ → Text
show (pos n) = to_string n
show (negsuc n) = b'-' ∷ to_string (suc n)

-- `sscanf format line` is the number that the format converts, if it does.
module _ (sscanf : Text → Text → Option ℤ) where
  unfoldable pub read_line : Text → Figures → Figures
  read_line line f =
      if starts_with (text "VmSize:") line
      then (elim (sscanf (text "VmSize: %ld") line) [
        | none ↦ f
        | some kb ↦ record f { vm_size = kb }
      ])
      else if starts_with (text "VmRSS:") line
      then (elim (sscanf (text "VmRSS: %ld") line) [
        | none ↦ f
        | some kb ↦ record f { vm_rss = kb }
      ])
      else f

  -- The loop over the lines of the status file; a file that does not open has none.
  unfoldable pub read_status : List Text → Figures → Figures
  unfolding read_line
  read_status [] f = f
  read_status (line ∷ lines) f = read_status lines (read_line line f)

  -- The line that `printMemoryUsage` prints.
  unfoldable pub print_memory_usage : Text → List Text → Text
  unfolding read_status padded
  print_memory_usage label status =
      let f = read_status status unknown in
      text "[MEMORY] "
      ++ (padded 25 label
          ++ (text " | VmSize: "
              ++ (padded 8 (show f.vm_size)
                  ++ (text " kB"
                      ++ (text " | VmRSS: " ++ (padded 8 (show f.vm_rss) ++ text " kB"))))))
