-- ===== src/Chain/Once.antt =====
-- How often the result task of src/include/testThreads.hpp prints a file.
use boilerplate_thread_messa.Prelude.{
  ℕ, zero, suc, ◌+◌, ◌≤◌, ◌≡◌, refl, sym, ap, ap₂, ◌∙◌, Bool, true, false, ◌&&◌, inl, inr,
  Bool-cases, leb, ◌==◌, ==_iff, if◌then◌else◌, List, [], ◌∷◌, ◌++◌, arith,
}
use mathlib.Core.List.{append_cancel_left, append_cancel_right}
use native.Mathlib.Decide.{ℕ_discrete}
use boilerplate_thread_messa.Prelude.Text.{Text, text, to_string}
use boilerplate_thread_messa.Prelude.Decimals.{value, value-to_string}
use boilerplate_thread_messa.Observer.{nth_event}
use boilerplate_thread_messa.Chain.Flow.{Chain}
use boilerplate_thread_messa.Chain.Works.{names_printed}
use boilerplate_thread_messa.Chain.Delivery.{file_names, under_way}
use boilerplate_thread_messa.Chain.Sessions.{Life, all_names, sessions_lose_nothing}

abbrev pub name_of : ℕ → Text
name_of n = (nth_event n 0).file_name

-- The name tells the number.
name_of-injective : (m n : ℕ) → name_of m ≡ name_of n → m ≡ n
name_of-injective m n e =
    let digits : to_string m ≡ to_string n =
      append_cancel_right (to_string m) (to_string n) (text ".txt")
        (append_cancel_left (text "file_") _ _ e) in
    sym (value-to_string m) ∙ ap (value 0) digits ∙ value-to_string n

abbrev pub same_text : Text → Text → Bool
same_text [] [] = true
same_text [] (y ∷ ys) = false
same_text (x ∷ xs) [] = false
same_text (x ∷ xs) (y ∷ ys) = x == y && same_text xs ys

same_text_self : (x : Text) → same_text x x ≡ true
same_text_self [] = refl
same_text_self (c ∷ x) = ground (arith, same_text_self x)

same_text→≡ : (x y : Text) → same_text x y ≡ true → x ≡ y
same_text→≡ [] [] h = refl
same_text→≡ [] (y ∷ ys) h = cc
same_text→≡ (x ∷ xs) [] h = cc
same_text→≡ (x ∷ xs) (y ∷ ys) h = ground (arith, same_text→≡ xs ys)

-- How often a text is in a list.
abbrev pub occurrences : Text → List Text → ℕ
occurrences x [] = 0
occurrences x (y ∷ ys) = (if same_text x y then 1 else 0) + occurrences x ys

occurrences-append :
    (x : Text) (xs ys : List Text) → occurrences x (xs ++ ys) ≡ occurrences x xs + occurrences x ys
occurrences-append x [] ys = omega arith
occurrences-append x (y ∷ xs) ys = omega (arith, occurrences-append x xs ys)

same_name : (k n : ℕ) → same_text (name_of k) (name_of n) ≡ (k == n)
same_name k n = elim (ℕ_discrete k n) [
  | yes e ↦ rw e (same_text_self (name_of n) ∙ sym ((==_iff n n).1 refl))
  | no ne ↦ elim (Bool-cases (same_text (name_of k) (name_of n))) [
    | inl same ↦ absurd (ne (name_of-injective k n (same_text→≡ _ _ same)))
    | inr differ ↦ differ ∙ ground arith
  ]
]

-- One, where a session made a file with the number `k`.
abbrev pub makes : ℕ → ℕ → ℕ
makes k n = if leb k n then 1 else 0

-- In how many sessions a file with the number `k` was made.
abbrev pub sessions_with : ℕ → List ℕ → ℕ
sessions_with k [] = 0
sessions_with k (n ∷ ns) = makes k n + sessions_with k ns

occurrences-file_names : (k n : ℕ) → 1 ≤ k → occurrences (name_of k) (file_names n) ≡ makes k n
unfolding file_names
occurrences-file_names k zero h = ground arith
occurrences-file_names k (suc n) h =
    occurrences-append (name_of k) (file_names n) (name_of (n + 1) ∷ [])
    ∙ rw (same_name k (n + 1), occurrences-file_names k n h) (ground arith)

occurrences-all_names :
    (k : ℕ) (ns : List ℕ) → 1 ≤ k → occurrences (name_of k) (all_names ns) ≡ sessions_with k ns
occurrences-all_names k [] h = refl
occurrences-all_names k (n ∷ ns) h =
    occurrences-append (name_of k) (file_names n) (all_names ns)
    ∙ ap₂ ◌+◌ (occurrences-file_names k n h) (occurrences-all_names k ns h)

-- In every interleaving of the five tasks, with restarts of the idle tasks in between, which begin
-- again with the number 1: the name of the file number `k` is among those that the result task has
-- printed or that are still under way exactly once for each session in which a file of that number
-- was made, so at most once where there is no restart. The `int` counters are taken as unbounded.
pub printed_once_a_session :
    {ns : List ℕ} {s : Chain} (k : ℕ)
    → Life ns s
    → 1 ≤ k
    → occurrences (name_of k) (names_printed s.world ++ under_way s)
      ≡ sessions_with k ns + makes k s.incoming.count
printed_once_a_session {ns} {s} k l h =
    ap (occurrences (name_of k)) (sessions_lose_nothing l)
    ∙ occurrences-append (name_of k) (all_names ns) (file_names s.incoming.count)
    ∙ ap₂ ◌+◌ (occurrences-all_names k ns h) (occurrences-file_names k s.incoming.count h)
