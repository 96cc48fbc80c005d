-- ===== src/CondVar/Ghost.antt =====
-- A wait on a `std::condition_variable` with more state beside the one that the code has.
use boilerplate_thread_messa.Prelude.{◌≡◌, refl, ap, ◌∙◌, Bool, List, [], ◌∷◌, inl, inr, Bool-cases}
use boilerplate_thread_messa.CondVar.{
  Wake, woken, timed_out, Waited, returned, asleep, act_all, wait_for,
}

unfoldable pub waited {ℓ κ} : {S : Type ℓ} {T : Type κ} → (S → T) → Waited S → Waited T
waited f (returned b s) = returned b (f s)
waited f (asleep s) = asleep (f s)

-- The state of a wait, over or not.
abbrev pub left {ℓ} : {S : Type ℓ} → Waited S → S
left (returned b s) = s
left (asleep s) = s

module _ {ℓ κ μ} {S : Type ℓ} {T : Type κ} {Op : Type μ} (act : Op → S → S) (act' : Op → T → T)
    (f : T → S) (same : (o : Op) (t : T) → f (act' o t) ≡ act o (f t)) (pred : S → Bool) where
  act_all_erases : (os : List Op) (t : T) → f (act_all act' os t) ≡ act_all act os (f t)
  act_all_erases [] t = refl
  act_all_erases (o ∷ os) t = act_all_erases os (act' o t) ∙ ap (act_all act os) (same o t)

  -- What is kept beside the state does not change the wait.
  pub wait_for_erases :
      (ws : List (Wake Op)) (t : T)
      → waited f (wait_for act' (λ u. pred (f u)) ws t) ≡ wait_for act pred ws (f t)
  unfolding wait_for waited
  wait_for_erases [] t = elim (Bool-cases (pred (f t))) [ inl e ↦ rw e refl | inr e ↦ rw e refl ]
  wait_for_erases (woken os ∷ ws) t = elim (Bool-cases (pred (f t))) [
    | inl e ↦ rw e refl
    | inr e ↦
        rw e
          (wait_for_erases ws (act_all act' os t) ∙ ap (wait_for act pred ws) (act_all_erases os t))
  ]
  wait_for_erases (timed_out os ∷ ws) t = elim (Bool-cases (pred (f t))) [
    | inl e ↦ rw e refl
    | inr e ↦ rw (e, act_all_erases os t) refl
  ]

module _ {ℓ κ μ} {S : Type ℓ} {Op : Type κ} (act : Op → S → S) (pred : S → Bool) (P : S → Type μ)
    (keeps : (o : Op) (s : S) → P s → P (act o s)) where
  act_all_keeps : (os : List Op) {s : S} → P s → P (act_all act os s)
  act_all_keeps [] h = h
  act_all_keeps (o ∷ os) h = act_all_keeps os (keeps o _ h)

  -- What every operation of the others keeps holds behind the wait.
  pub wait_for_keeps : (ws : List (Wake Op)) {s : S} → P s → P (left (wait_for act pred ws s))
  unfolding wait_for
  wait_for_keeps [] {s} h = elim (Bool-cases (pred s)) [ inl e ↦ rw e h | inr e ↦ rw e h ]
  wait_for_keeps (woken os ∷ ws) {s} h = elim (Bool-cases (pred s)) [
    | inl e ↦ rw e h
    | inr e ↦ rw e (wait_for_keeps ws (act_all_keeps os h))
  ]
  wait_for_keeps (timed_out os ∷ ws) {s} h = elim (Bool-cases (pred s)) [
    | inl e ↦ rw e h
    | inr e ↦ rw e (act_all_keeps os h)
  ]
