-- ===== src/RingBuffer/Spsc/Weak/History.antt =====
-- The modification order of an index of src/include/threading/spScRingBuffer.hpp, which counts
-- round at the capacity, and what an old value of it tells.
use boilerplate_thread_messa.Prelude.{
  ℕ, zero, suc, ◌+◌, ◌-◌, ◌%◌, ◌≤◌, ◌<◌, ◌≡◌, ◌≢◌, refl, sym, ap, ◌∙◌, List, [], ◌∷◌, ◌++◌, length,
  length-append, get_or, arith,
}
use native.Mathlib.Nat.{add-mod_right, mod-add-mod}
use native.Mathlib.Decide.{dec_lt}
use boilerplate_thread_messa.RingBuffer.Span.{mod-apart}

-- The index `now` has been stored `n` times behind the first store of 0.
pub record IsHistory (c n now : ℕ) (stores : List ℕ) : Type 0 where
  pub many : length stores ≡ n + 1
  pub entry : (at : ℕ) → at < length stores → get_or stores at 0 ≡ at % c
  pub last : now ≡ n % c

get_or-front : (xs ys : List ℕ) (i : ℕ) → i < length xs → get_or (xs ++ ys) i 0 ≡ get_or xs i 0
get_or-front [] ys i h = absurd (omega arith)
get_or-front (x ∷ xs) ys zero h = refl
get_or-front (x ∷ xs) ys (suc i) h = get_or-front xs ys i (omega (arith, h))

pub get_or-last : (xs : List ℕ) (y : ℕ) → get_or (xs ++ (y ∷ [])) (length xs) 0 ≡ y
get_or-last [] y = refl
get_or-last (x ∷ xs) y = get_or-last xs y

pub IsHistory-snoc :
    (c n : ℕ) {now next : ℕ} {stores : List ℕ}
    → IsHistory c n now stores
    → next ≡ (n + 1) % c
    → IsHistory c (n + 1) next (stores ++ (next ∷ []))
IsHistory-snoc c n {now} {next} {stores} h e = record {
  many = omega (arith, length-append stores (next ∷ []), h.many);
  entry = λ at before. elim (dec_lt at (length stores)) [
    | yes p ↦ get_or-front stores (next ∷ []) at p ∙ h.entry at p
    | no p ↦
        let same : at ≡ length stores = omega (arith, before, length-append stores (next ∷ [])) in
        ap (λ i. get_or (stores ++ (next ∷ [])) i 0) same
        ∙ get_or-last stores next
        ∙ e
        ∙ ap (λ i. i % c) (omega (arith, same, h.many))
  ];
  last = e;
}

-- The index behind the current one.
pub next_stored :
    (c n : ℕ) {now : ℕ} {stores : List ℕ} → IsHistory c n now stores → (now + 1) % c ≡ (n + 1) % c
next_stored c n h = ap (λ i. (i + 1) % c) (h.last) ∙ mod-add-mod n c 1

-- An old tail that is not the next head leaves room: the producer is less than a round ahead.
pub room_behind :
    (c pushed at : ℕ) → pushed < at + c → (pushed + 1) % c ≢ at % c → pushed + 1 < at + c
room_behind c pushed at near differ = elim (dec_lt (pushed + 1) (at + c)) [
  | yes p ↦ p
  | no p ↦
      let same : pushed + 1 ≡ at + c = omega (arith, near) in
      absurd (differ (ap (λ i. i % c) same ∙ add-mod_right at c))
]

-- So the next head is not the current tail either, which is further on.
pub next-apart :
    (c pushed popped : ℕ)
    → popped ≤ pushed
    → pushed + 1 < popped + c
    → (pushed + 1) % c ≢ popped % c
next-apart c pushed popped h near e =
    mod-apart c popped (pushed + 1 - popped) (omega arith) (omega arith)
      (ap (λ i. i % c) (omega arith) ∙ e)

-- An old head that is not the tail shows an item.
pub item_behind : (c popped at : ℕ) → popped ≤ at → popped % c ≢ at % c → popped < at
item_behind c popped at h differ = elim (dec_lt popped at) [
  | yes p ↦ p
  | no p ↦ absurd (differ (ap (λ i. i % c) (omega (arith, h))))
]

pub tail-apart :
    (c pushed popped : ℕ) → popped < pushed → pushed < popped + c → popped % c ≢ pushed % c
tail-apart c pushed popped h near e =
    mod-apart c popped (pushed - popped) (omega arith) (omega arith)
      (ap (λ i. i % c) (omega arith) ∙ sym e)
