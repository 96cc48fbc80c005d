-- ===== src/MemoryUtils/Status.antt =====
-- What `printMemoryUsage` of src/include/memoryUtils.hpp prints.
use boilerplate_thread_messa.Prelude.{
  inl, inr, Bool-cases, Option-cases, ◌≡◌, refl, ap, ◌∙◌, true, false, Option, none, some, List, [],
  ◌∷◌, arith, if◌then◌else◌,
}
use boilerplate_thread_messa.Prelude.Int.{ℤ, negsuc}
use boilerplate_thread_messa.Prelude.Text.{Text, text}
use boilerplate_thread_messa.MemoryUtils.{starts_with, Figures, unknown, read_line, read_status}

-- A line does not start with both names.
names_exclude :
    (line : Text)
    → starts_with (text "VmSize:") line ≡ true
    → starts_with (text "VmRSS:") line ≡ false
names_exclude [] e = absurd cc
names_exclude (a ∷ []) e = ground arith
names_exclude (a ∷ b ∷ []) e = ground arith
names_exclude (a ∷ b ∷ c ∷ line) e = ground arith

module _ (sscanf : Text → Text → Option ℤ) where
  -- What a line tells of the figure with this name.
  abbrev pub reading : Text → Text → Text → Option ℤ
  reading name format line = if starts_with name line then sscanf format line else none

  abbrev pub updated : Text → Text → Text → ℤ → ℤ
  updated name format line d = elim (reading name format line) [ none ↦ d | some kb ↦ kb ]

  -- The last of the readings of the lines; `d` with none.
  abbrev pub last_reading : Text → Text → ℤ → List Text → ℤ
  last_reading name format d [] = d
  last_reading name format d (line ∷ lines) =
      last_reading name format (updated name format line d) lines

  read_line_lem :
      (line : Text) (f : Figures)
      → ((read_line sscanf line f).vm_size
          ≡ updated (text "VmSize:") (text "VmSize: %ld") line f.vm_size)
        × ((read_line sscanf line f).vm_rss
            ≡ updated (text "VmRSS:") (text "VmRSS: %ld") line f.vm_rss)
  unfolding read_line
  read_line_lem line f = elim (Bool-cases (starts_with (text "VmSize:") line)) [
    | inl e ↦ elim (Option-cases (sscanf (text "VmSize: %ld") line)) [
      | inl g ↦ rw (e, names_exclude line e, g) (refl, refl)
      | inr (kb, g) ↦ rw (e, names_exclude line e, g) (refl, refl)
    ]
    | inr e ↦ elim (Bool-cases (starts_with (text "VmRSS:") line)) [
      | inl h ↦ elim (Option-cases (sscanf (text "VmRSS: %ld") line)) [
        | inl g ↦ rw (e, h, g) (refl, refl)
        | inr (kb, g) ↦ rw (e, h, g) (refl, refl)
      ]
      | inr h ↦ rw (e, h) (refl, refl)
    ]
  ]

  read_status_from :
      (lines : List Text) (f : Figures)
      → ((read_status sscanf lines f).vm_size
          ≡ last_reading (text "VmSize:") (text "VmSize: %ld") f.vm_size lines)
        × ((read_status sscanf lines f).vm_rss
            ≡ last_reading (text "VmRSS:") (text "VmRSS: %ld") f.vm_rss lines)
  unfolding read_status
  read_status_from [] f = (refl, refl)
  read_status_from (line ∷ lines) f =
      let (size, rss) = read_line_lem line f in
      let (sizes, rsses) = read_status_from lines (read_line sscanf line f) in
      (
        sizes ∙ ap (λ d. last_reading (text "VmSize:") (text "VmSize: %ld") d lines) size,
        rsses ∙ ap (λ d. last_reading (text "VmRSS:") (text "VmRSS: %ld") d lines) rss,
      )

  -- Each figure is the last one that a line of its own name gives, and -1 if there is none, however
  -- the lines of the two names are mixed with each other and with other lines.
  pub read_status_lem :
      (lines : List Text)
      → ((read_status sscanf lines unknown).vm_size
          ≡ last_reading (text "VmSize:") (text "VmSize: %ld") (negsuc 0) lines)
        × ((read_status sscanf lines unknown).vm_rss
            ≡ last_reading (text "VmRSS:") (text "VmRSS: %ld") (negsuc 0) lines)
  read_status_lem lines = read_status_from lines unknown
