-- ===== src/Prelude/Decimals.antt =====
-- The decimal digits of `std::to_string` and their value.
use boilerplate_thread_messa.Prelude.Text.{Text, digits_onto, to_string}
use mathlib.Core.Path.{◌≡◌, refl}
use mathlib.Core.List.{[], ◌∷◌, ◌++◌, append_assoc}
use Prim.Native.Nat.{ℕ, zero, suc, ◌+◌, ◌-◌, ◌*◌, ◌/◌, ◌%◌, ◌≤◌, ◌<◌}
use boilerplate_thread_messa.Prelude.Lists.{length, length-append}
use native.Mathlib.Omega.{arith}
use mathlib.Core.Logic.{inl, inr}
use mathlib.Core.Bool.{Bool, true, ◌&&◌}
use boilerplate_thread_messa.Prelude.Tests.{leb, ltb, Bool-cases}

digits_onto-append :
    (fuel n : ℕ) (tail : Text) → digits_onto fuel n tail ≡ digits_onto fuel n [] ++ tail
unfolding digits_onto
digits_onto-append zero n tail = refl
digits_onto-append (suc fuel) n tail = ground (
  arith,
  digits_onto-append fuel (n / 10) ((n % 10 + b'0') ∷ tail),
  digits_onto-append fuel (n / 10) ((n % 10 + b'0') ∷ []),
  append_assoc (digits_onto fuel (n / 10) []) ((n % 10 + b'0') ∷ []) tail,
)

-- The number that a text of digits denotes, behind the digits read before.
abbrev pub value : ℕ → Text → ℕ
value seen [] = seen
value seen (c ∷ cs) = value (seen * 10 + (c - b'0')) cs

value-snoc :
    (seen : ℕ) (cs : Text) (c : ℕ) → value seen (cs ++ (c ∷ [])) ≡ value seen cs * 10 + (c - b'0')
value-snoc seen [] c = refl
value-snoc seen (x ∷ cs) c = value-snoc (seen * 10 + (x - b'0')) cs c

value-digits : (fuel n : ℕ) → n ≤ fuel → value 0 (digits_onto fuel n []) ≡ n
unfolding digits_onto
value-digits zero n h = omega (arith, h)
value-digits (suc fuel) n h = ground (
  arith,
  digits_onto-append fuel (n / 10) ((n % 10 + b'0') ∷ []),
  value-snoc 0 (digits_onto fuel (n / 10) []) (n % 10 + b'0'),
  value-digits fuel (n / 10),
)

-- Reading the digits back gives the number.
pub value-to_string : (n : ℕ) → value 0 (to_string n) ≡ n
unfolding to_string
value-to_string n = value-digits n n (omega arith)

-- The least number with more than `width` digits.
abbrev pub digit_bound : ℕ → ℕ
digit_bound zero = 1
digit_bound (suc width) = 10 * digit_bound width

length-digits :
    (fuel n width : ℕ)
    → n ≤ fuel
    → n < digit_bound (suc width)
    → length (digits_onto fuel n []) ≤ suc width
unfolding digits_onto
length-digits zero n width h b = omega arith
length-digits (suc fuel) n zero h b = ground arith
length-digits (suc fuel) n (suc width) h b = ground (
  arith,
  digits_onto-append fuel (n / 10) ((n % 10 + b'0') ∷ []),
  length-append (digits_onto fuel (n / 10) []) ((n % 10 + b'0') ∷ []),
  length-digits fuel (n / 10) width,
)

-- A number below the bound has at most so many digits.
pub length-to_string :
    (width n : ℕ) → n < digit_bound (suc width) → length (to_string n) ≤ suc width
unfolding to_string
length-to_string width n b = length-digits n n width (omega arith) b

abbrev pub is_digit : ℕ → Bool
is_digit c = leb b'0' c && leb c b'9'

abbrev pub AllDigits : Text → Type 0
AllDigits [] = Unit
AllDigits (c ∷ cs) = (is_digit c ≡ true) × AllDigits cs

pub AllDigits-append : (cs ds : Text) → AllDigits cs → AllDigits ds → AllDigits (cs ++ ds)
AllDigits-append [] ds h k = k
AllDigits-append (c ∷ cs) ds (h, hs) k = (h, AllDigits-append cs ds hs k)

digits_onto-AllDigits :
    (fuel n : ℕ) (tail : Text) → AllDigits tail → AllDigits (digits_onto fuel n tail)
unfolding digits_onto
digits_onto-AllDigits zero n tail h = (ground arith, h)
digits_onto-AllDigits (suc fuel) n tail h =
    let more = digits_onto-AllDigits fuel (n / 10) ((n % 10 + b'0') ∷ tail) (ground arith, h) in
    elim (Bool-cases (ltb n 10)) [ inl e ↦ rw e (ground arith, h) | inr e ↦ rw e more ]

pub to_string-AllDigits : (n : ℕ) → AllDigits (to_string n)
unfolding to_string
to_string-AllDigits n = digits_onto-AllDigits n n [] tt
