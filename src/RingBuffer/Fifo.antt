-- ===== src/RingBuffer/Fifo.antt =====
-- The methods of src/include/threading/spScRingBuffer.hpp against a specification, a bounded queue.
use boilerplate_thread_messa.Prelude.{
  ℕ, suc, ◌+◌, ◌-◌, ◌%◌, ◌≡◌, ap, ◌∙◌, Bool, true, false, List, [], ◌∷◌, ◌++◌, length,
  get_or_default, arith, ◌==◌, if◌then◌else◌,
}
use native.Mathlib.Nat.{mod-mod, mod-eq_of_lt}
use native.Mathlib.Decide.{ℕ_discrete}
use boilerplate_thread_messa.RingBuffer.{SpScRingBuffer, push, pop, empty, full}
use boilerplate_thread_messa.RingBuffer.Span.{
  span-set, span_congr, span-pos, used, contents, used_facts, used-push, used-pop, length-contents,
  next_head, next_tail,
}
use boilerplate_thread_messa.RingBuffer.Invariant.{IsReady, next_index_lem}

module _ {ℓ} {A : Type ℓ} where
  -- The specification.
  unfoldable pub put : ℕ → A → List A → Bool × List A
  put bound x q = if length q == bound then (false, q) else (true, q ++ (x ∷ []))

  unfoldable pub get : A → List A → Bool × A × List A
  get out [] = (false, out, [])
  get out (x ∷ q) = (true, x, q)

module _ {ℓ} {A : Type ℓ} {r : SpScRingBuffer A} {k : ℕ} (v : IsReady r k) where
  open r use {m_capacity, m_head, m_tail}

  -- On a ready buffer `push` is `put` at the bound `capacity - 1`: it reports the same and leaves
  -- the same elements.
  pub push-put :
      (d value : A)
      → let (ok, r') = push value r in
        (ok, contents d r') ≡ put (m_capacity - 1) value (contents d r)
  unfolding push put
  push-put d value = elim (ℕ_discrete (next_head v) m_tail) [
    | yes e ↦
        ground
          (arith, v.started, next_index_lem m_head v v.head_in, (used_facts v), length-contents v d)
    | no ne ↦ ground (
      arith,
      v.started,
      next_index_lem m_head v v.head_in,
      (used_facts v),
      used-push v ne,
      length-contents v d,
      span-set d r.m_buffer m_capacity value m_head m_tail (used r)
          (omega (arith, v.storage, v.head_in)) (used_facts v).0 (used_facts v).1,
    )
  ]

  -- On a ready buffer `pop` is `get`.
  pub pop-get :
      (d out : A) → let (ok, x, r') = pop out r in (ok, x, contents d r') ≡ get out (contents d r)
  unfolding pop get
  pop-get d out = elim (ℕ_discrete m_tail m_head) [
    | yes e ↦ ground (arith, v.started, (used_facts v))
    | no ne ↦ rw (span-pos v d m_tail (used r) (λ z. ne ((used_facts v).2.0 z))) (
        ground (
          arith,
          v.started,
          next_index_lem m_tail v v.tail_in,
          used-pop v ne,
          mod-eq_of_lt v.tail_in,
          get_or_default r.m_buffer m_tail d out (omega (arith, v.storage, v.tail_in)),
          span_congr d r.m_buffer m_capacity (next_tail v) (suc m_tail) (used r - 1) next_mod,
        ))
  ]
    where
      next_mod : (next_tail v) % m_capacity ≡ suc m_tail % m_capacity
      next_mod = mod-mod (m_tail + 1) m_capacity ∙ ap (λ j. j % m_capacity) (omega arith)

  -- `empty` and `full` tell whether `contents` has no element, and `capacity - 1` elements.
  pub empty-full :
      (d : A)
      → (empty r ≡ (length (contents d r) == 0))
        × (full r ≡ (length (contents d r) == m_capacity - 1))
  unfolding empty full
  empty-full d =
      ground
        (arith, v.started, next_index_lem m_head v v.head_in, (used_facts v), length-contents v d)
