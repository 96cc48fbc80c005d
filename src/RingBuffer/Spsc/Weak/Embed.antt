-- ===== src/RingBuffer/Spsc/Weak/Embed.antt =====
-- Interleavings of `push` and `pop` of src/include/threading/spScRingBuffer.hpp on one memory, read
-- as runs in which a load gives the newest value.
use boilerplate_thread_messa.Prelude.{
  ℕ, ◌+◌, ◌≤◌, ◌≡◌, refl, sym, subst, ◌∙◌, List, [], ◌∷◌, ◌++◌, length, length-append, get_or,
  arith,
}
use boilerplate_thread_messa.RingBuffer.{SpScRingBuffer}
use boilerplate_thread_messa.RingBuffer.Spsc
use boilerplate_thread_messa.RingBuffer.Spsc.{System, start}
use boilerplate_thread_messa.RingBuffer.Spsc.Weak.{
  Weak, Step, load_head, find_full, find_room, store_value, store_head, load_tail, find_empty,
  find_item, load_value, store_tail, weak_start, Reach, here, later,
}
use boilerplate_thread_messa.RingBuffer.Spsc.Weak.History.{get_or-last}

-- The newest store of an index is what the memory holds, and nobody has seen more than there is.
record IsNewest (stores : List ℕ) (now seen : ℕ) : Type 0 where
  pub at : ℕ
  pub ends : length stores ≡ at + 1
  pub newest : get_or stores at 0 ≡ now
  pub there : seen ≤ at

snoc-IsNewest :
    {stores : List ℕ} {now seen : ℕ} (next : ℕ)
    → IsNewest stores now seen
    → IsNewest (stores ++ (next ∷ [])) next seen
snoc-IsNewest {stores} next v = record {
  at = length stores;
  ends = length-append stores (next ∷ []);
  newest = get_or-last stores next;
  there = omega (arith, v.ends, v.there);
}

seen-IsNewest :
    {stores : List ℕ} {now seen : ℕ} (v : IsNewest stores now seen) → IsNewest stores now v.at
seen-IsNewest v = record { at = v.at; ends = v.ends; newest = v.newest; there = omega arith }

module _ {A : Type 0} where
  abbrev IsUpToDate : Weak A → Type 0
  IsUpToDate w =
      IsNewest w.heads w.now.ring.m_head w.seen_head
      × IsNewest w.tails w.now.ring.m_tail w.seen_tail

  abbrev Follows : A → Weak A → System A → Type 0
  Follows out w t = (u : Weak A) × Step out w u × (u.now ≡ t) × IsUpToDate u

  follow :
      {out : A} {w : Weak A} {t : System A} → IsUpToDate w → Spsc.Step out w.now t → Follows out w t
  follow v (Spsc.load_head x i e) = (_, load_head x i e, refl, v)
  follow (h, t) (Spsc.find_full x i e f) = (
    _,
    find_full x i t.at e t.there (omega (arith, t.ends)) (f ∙ sym t.newest),
    refl,
    (h, seen-IsNewest t),
  )
  follow (h, t) (Spsc.find_room x i e f) = (
    _,
    find_room x i t.at e t.there (omega (arith, t.ends)) (λ g. f (g ∙ t.newest)),
    refl,
    (h, seen-IsNewest t),
  )
  follow v (Spsc.store_value x i n e) = (_, store_value x i n e, refl, v)
  follow (h, t) (Spsc.store_head x n e) = (_, store_head x n e, refl, (snoc-IsNewest n h, t))
  follow v (Spsc.load_tail i e) = (_, load_tail i e, refl, v)
  follow (h, t) (Spsc.find_empty i e f) = (
    _,
    find_empty i h.at e h.there (omega (arith, h.ends)) (f ∙ sym h.newest),
    refl,
    (seen-IsNewest h, t),
  )
  follow (h, t) (Spsc.find_item i e f) = (
    _,
    find_item i h.at e h.there (omega (arith, h.ends)) (λ g. f (g ∙ h.newest)),
    refl,
    (seen-IsNewest h, t),
  )
  follow v (Spsc.load_value i e) = (_, load_value i e, refl, v)
  follow (h, t) (Spsc.store_tail i x e) = (_, store_tail i x e, refl, (h, snoc-IsNewest _ t))

  embed :
      {out : A} {r : SpScRingBuffer A} {s : System A}
      → Spsc.Reach out (start r) s
      → (w : Weak A) × Reach out (weak_start r) w × (w.now ≡ s) × IsUpToDate w
  embed {out} {r} Spsc.here = (
    weak_start r,
    here,
    refl,
    (
      record { at = 0; ends = refl; newest = refl; there = omega arith },
      record { at = 0; ends = refl; newest = refl; there = omega arith },
    ),
  )
  embed {out} (Spsc.later {t} {u} run st) =
      let (w, reached, same, v) = embed run in
      let (w2, step, same2, v2) = follow v (subst (λ s. Spsc.Step out s u) (sym same) st) in
      (w2, later reached step, same2, v2)

  -- What the two threads can reach on one memory, they can also reach with loads that may give old
  -- values: the newest value is one of those that a load may give.
  pub interleavings_are_weak :
      (out : A) (r : SpScRingBuffer A) {s : System A}
      → Spsc.Reach out (start r) s
      → (w : Weak A) × Reach out (weak_start r) w × (w.now ≡ s)
  interleavings_are_weak out r run = let (w, reached, same, _) = embed run in (w, reached, same)
