-- ===== src/Worker/Waiting.antt =====
-- `waitFor` of the worker, against its description: "true if pred() became true; false on timeout
-- or stop".
use boilerplate_thread_messa.Prelude.{◌≡◌, Bool, true, false, ◌||◌, List}
use boilerplate_thread_messa.CondVar.{
  Wake, HasTimeout, returned, wait_for-pred, wait_for-returns, wait_for_now,
}
use boilerplate_thread_messa.Worker.{stop_or_pred, wait_for_pred}

module _ {ℓ κ} {S : Type ℓ} {Op : Type κ} (act : Op → S → S) (stop_requested pred : S → Bool) where
  -- With a timeout `waitFor` comes back, and its result is whether the predicate holds or a stop
  -- is requested at that moment.
  pub wait_for_pred_lem :
      (ws : List (Wake Op)) (s : S)
      → HasTimeout ws
      → (b : Bool) × (t : S) × (wait_for_pred act stop_requested pred ws s ≡ returned b t)
        × ((stop_requested t || pred t) ≡ b)
  unfolding wait_for_pred
  wait_for_pred_lem ws s h =
      let both : S → Bool = stop_or_pred act stop_requested pred in
      let (b, t, e) = wait_for-returns act both ws s h in (b, t, e, wait_for-pred act both ws s e)

  -- So it returns true on a stop request, also where the predicate fails and goes on failing.
  pub wait_for_pred_stopped :
      (ws : List (Wake Op)) (s : S)
      → stop_requested s ≡ true
      → pred s ≡ false
      → wait_for_pred act stop_requested pred ws s ≡ returned true s
  unfolding wait_for_pred
  wait_for_pred_stopped ws s stopped fails =
      wait_for_now act (stop_or_pred act stop_requested pred) ws s (rw stopped)
