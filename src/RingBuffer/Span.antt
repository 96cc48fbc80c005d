-- ===== src/RingBuffer/Span.antt =====
-- The elements of the ring buffer as a list: `m_head - m_tail` of them, from `m_tail` on, going
-- round at the capacity.
use boilerplate_thread_messa.Prelude.{
  ℕ, zero, suc, ◌+◌, ◌-◌, ◌%◌, ◌≤◌, ◌<◌, ◌≡◌, refl, sym, ap, ap₂, ◌∙◌, ◌≢◌, ◌↔◌, ◌⊎◌, inl, inr,
  List, [], ◌∷◌, ◌++◌, length, get_or, set, get_or-set_self, get_or-set_ne, arith,
}
use native.Mathlib.Nat.{mod_self, suc-mod, mod-eq_of_lt, mod-eq-sub-mod}
use native.Mathlib.Decide.{dec_lt}
use boilerplate_thread_messa.RingBuffer.{SpScRingBuffer}
use boilerplate_thread_messa.RingBuffer.Invariant.{IsReady}

-- Two indices less than a whole round apart do not meet.
pub mod-apart : (c t j : ℕ) → 0 < j → j < c → (t + j) % c ≢ t % c
mod-apart c t j p h = grind (arith)

module _ {ℓ} {A : Type ℓ} (d : A) (buf : List A) (c : ℕ) where
  -- The `n` elements from the index `t` on, going round at `c`. `d` is read out of range only.
  abbrev pub span : ℕ → ℕ → List A
  span t zero = []
  span t (suc n) = get_or buf (t % c) d ∷ span (suc t) n

  pub length-span : (t n : ℕ) → length (span t n) ≡ n
  length-span t zero = refl
  length-span t (suc n) = ap suc (length-span (suc t) n)

  -- Only the remainder of the first index matters.
  pub span_congr : (s t n : ℕ) → s % c ≡ t % c → span s n ≡ span t n
  span_congr s t zero e = refl
  span_congr s t (suc n) e =
      ap₂ ◌∷◌ (ap (λ i. get_or buf i d) e)
        (span_congr (suc s) (suc t) n (suc-mod s c ∙ ap (λ i. suc i % c) e ∙ sym (suc-mod t c)))

  -- One more element goes to the end.
  pub span-snoc : (t n : ℕ) → span t (suc n) ≡ span t n ++ (get_or buf ((t + n) % c) d ∷ [])
  span-snoc t zero = ap (λ j. get_or buf (j % c) d ∷ []) (omega arith)
  span-snoc t (suc n) =
      ap (λ xs. get_or buf (t % c) d ∷ xs)
        (span-snoc (suc t) n
          ∙ ap (λ j. span (suc t) n ++ (get_or buf (j % c) d ∷ [])) (omega arith))

module _ {ℓ} {A : Type ℓ} (d : A) (buf : List A) (c : ℕ) (x : A) (i : ℕ) where
  -- A write at the index behind the last element changes no element.
  pub span-set_behind :
      (t n : ℕ) → n < c → (t + n) % c ≡ i → span d (set buf i x) c t n ≡ span d buf c t n
  span-set_behind t zero h e = refl
  span-set_behind t (suc n) h e =
      ap₂ ◌∷◌
        (get_or-set_ne buf i (t % c) x d λ same. mod-apart c t (suc n) (omega arith) h (e ∙ same))
        (span-set_behind (suc t) n (omega arith) (ap (λ j. j % c) (omega arith) ∙ e))

  -- With one more element counted in, it appends.
  pub span-set :
      (t n : ℕ)
      → i < length buf
      → n < c
      → (t + n) % c ≡ i
      → span d (set buf i x) c t (suc n) ≡ span d buf c t n ++ (x ∷ [])
  span-set t n i_in h e =
      span-snoc d (set buf i x) c t n
      ∙ rw (span-set_behind t n h e, e, get_or-set_self buf i x d i_in)

module _ {ℓ} {A : Type ℓ} where
  abbrev pub used : SpScRingBuffer A → ℕ
  used r = (r.m_head + r.m_capacity - r.m_tail) % r.m_capacity

  -- The elements that the buffer holds, oldest first.
  abbrev pub contents : A → SpScRingBuffer A → List A
  contents d r = span d r.m_buffer r.m_capacity r.m_tail (used r)

  pub contents_of_reset :
      (out : A) (r : SpScRingBuffer A)
      → 0 < r.m_capacity
      → r.m_head ≡ 0
      → r.m_tail ≡ 0
      → contents out r ≡ []
  contents_of_reset out r p h t =
      let none_used : used r ≡ 0 = rw (h, t) (grind (arith, mod_self r.m_capacity)) in
      ap (span out r.m_buffer r.m_capacity r.m_tail) none_used

-- A sum of an index and a distance, both below `c`, goes round at most once.
pub wrap_cases : (c a : ℕ) → a < c + c → ((a < c) × (a % c ≡ a)) ⊎ ((c ≤ a) × (a % c ≡ a - c))
wrap_cases c a h = elim (dec_lt a c) [
  | yes p ↦ inl (p, mod-eq_of_lt p)
  | no p ↦ inr (omega arith, mod-eq-sub-mod (omega arith) ∙ mod-eq_of_lt (omega arith))
]

module _ {ℓ} {A : Type ℓ} {r : SpScRingBuffer A} {k : ℕ} (v : IsReady r k) where
  open r use {m_capacity, m_head, m_tail}

  abbrev pub next_head : ℕ
  next_head = (m_head + 1) % m_capacity

  abbrev pub next_tail : ℕ
  next_tail = (m_tail + 1) % m_capacity

  pub used_facts :
      (used r < m_capacity)
      × ((m_tail + used r) % m_capacity ≡ m_head)
      × ((used r ≡ 0) ↔ (m_tail ≡ m_head))
      × ((used r ≡ m_capacity - 1) ↔ (next_head ≡ m_tail))
  used_facts = grind (
    arith,
    v.head_in,
    v.tail_in,
    wrap_cases m_capacity (m_head + m_capacity - m_tail),
    wrap_cases m_capacity (m_tail + used r),
    wrap_cases m_capacity (m_head + 1),
  )

  pub used-push : next_head ≢ m_tail → (next_head + m_capacity - m_tail) % m_capacity ≡ used r + 1
  used-push ne = grind (
    arith,
    v.head_in,
    v.tail_in,
    wrap_cases m_capacity (m_head + m_capacity - m_tail),
    wrap_cases m_capacity (next_head + m_capacity - m_tail),
    wrap_cases m_capacity (m_head + 1),
  )

  pub used-pop : m_tail ≢ m_head → (m_head + m_capacity - next_tail) % m_capacity + 1 ≡ used r
  used-pop ne = grind (
    arith,
    v.head_in,
    v.tail_in,
    wrap_cases m_capacity (m_head + m_capacity - m_tail),
    wrap_cases m_capacity (m_head + m_capacity - next_tail),
    wrap_cases m_capacity (m_tail + 1),
  )

  pub length-contents : (d : A) → length (contents d r) ≡ used r
  length-contents d = length-span d r.m_buffer m_capacity m_tail (used r)

  pub span-pos :
      (d : A) (t n : ℕ)
      → n ≢ 0
      → span d r.m_buffer m_capacity t n
        ≡ get_or r.m_buffer (t % m_capacity) d ∷ span d r.m_buffer m_capacity (suc t) (n - 1)
  span-pos d t zero ne = absurd (ne refl)
  span-pos d t (suc n) ne = ap (λ j. span d r.m_buffer m_capacity t (suc j)) (omega arith)
