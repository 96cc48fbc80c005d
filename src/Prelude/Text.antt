-- ===== src/Prelude/Text.antt =====
-- Texts as lists of codes, with the decimal digits of `std::to_string`.
use Prim.Native.Char.{code}
use Prim.Native.String.{String}
use boilerplate_thread_messa.Prelude.Tests.{ltb, if◌then◌else◌}
use mathlib.Core.List.{List, [], ◌∷◌}
use Prim.Native.Nat.{ℕ, zero, suc, ◌+◌, ◌/◌, ◌%◌}

abbrev pub Text : Type 0
Text = List ℕ

abbrev pub text : String → Text
text String.[] = []
text (String.◌∷◌ c s) = code c ∷ text s

-- The digits of `n`, before those in `tail`. The fuel `n` is enough: a step divides by ten.
unfoldable pub digits_onto : ℕ → ℕ → Text → Text
digits_onto zero n tail = (n % 10 + b'0') ∷ tail
digits_onto (suc fuel) n tail =
    let more = digits_onto fuel (n / 10) ((n % 10 + b'0') ∷ tail) in
    if ltb n 10 then (n + b'0') ∷ tail else more

unfoldable pub to_string : ℕ → Text
unfolding digits_onto
to_string n = digits_onto n n []
