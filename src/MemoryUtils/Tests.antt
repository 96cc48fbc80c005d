-- ===== src/MemoryUtils/Tests.antt =====
-- Examples of the time stamps and the memory figures of src/include/memoryUtils.hpp.
use boilerplate_thread_messa.Prelude.{
  ℕ, true, ◌+◌, ◌*◌, ◌-◌, ◌/◌, ◌%◌, ◌≡◌, refl, Option, some, ltb, ◌==◌, if◌then◌else◌, List, [],
  ◌∷◌, arith,
}
use boilerplate_thread_messa.Prelude.Int.{ℤ, pos, negsuc}
use boilerplate_thread_messa.Prelude.Text.{Text, text, to_string}
use boilerplate_thread_messa.MemoryUtils.{
  Tm, current_timestamp, unknown, read_status, print_memory_usage,
}
use boilerplate_thread_messa.MemoryUtils.Stamps.{current_timestamp_lem, fits, read_stamp}
use boilerplate_thread_messa.MemoryUtils.Status.{last_reading, read_status_lem}

-- Universal time, and a clock that ticks in nanoseconds.
abbrev seconds_of : ℕ → ℕ
seconds_of now = now / 1000000000

abbrev universal : ℕ → Tm
universal t = record { tm_hour = t / 3600 % 24; tm_min = t / 60 % 60; tm_sec = t % 60 }

current_timestamp_lem_example :
    let t = current_timestamp 1000 seconds_of universal 86399000007000 in
    (fits (text "dd:dd:dd.dddddd") t ≡ true) × (read_stamp t ≡ (23, 59, 59, 7))
current_timestamp_lem_example =
    current_timestamp_lem 1000 seconds_of universal 86399000007000
      (omega arith, omega arith, omega arith)

shown : current_timestamp 1000 seconds_of universal 86399000007000 ≡ text "23:59:59.000007"
unfolding current_timestamp to_string
shown = refl

-- A scan that reads the number behind the first blank.
abbrev after_blank : Text → Text
after_blank [] = []
after_blank (c ∷ cs) = let rest = after_blank cs in if c == b' ' then cs else rest

abbrev number : ℕ → Text → ℕ
number seen [] = seen
number seen (c ∷ cs) =
    let more = number (seen * 10 + (c - b'0')) cs in if ltb c b'0' then seen else more

abbrev scan : Text → Text → Option ℤ
scan format line = some (pos (number 0 (after_blank line)))

abbrev status : List Text
status = text "Name: x" ∷ text "VmSize: 12 kB" ∷ text "VmRSS: 3 kB" ∷ text "VmSize: 9 kB" ∷ []

read_status_lem_example :
    ((read_status scan status unknown).vm_size
      ≡ last_reading scan (text "VmSize:") (text "VmSize: %ld") (negsuc 0) status)
    × ((read_status scan status unknown).vm_rss
        ≡ last_reading scan (text "VmRSS:") (text "VmRSS: %ld") (negsuc 0) status)
read_status_lem_example = read_status_lem scan status

printed :
    print_memory_usage scan (text "Before Stress") status
    ≡ text "[MEMORY] Before Stress             | VmSize: 9        kB | VmRSS: 3        kB"
unfolding print_memory_usage to_string
printed = refl
