-- ===== src/Chain/Delivery.antt =====
-- The names of the files between the event maker and the output of the result task of
-- src/include/testThreads.hpp.
use boilerplate_thread_messa.Prelude.{
  ℕ, zero, suc, ◌+◌, ◌≡◌, refl, sym, ap, ◌∙◌, false, inl, inr, some, List, [], ◌∷◌, ◌++◌,
  append_assoc, arith,
}
use boilerplate_thread_messa.Prelude.Text.{Text}
use boilerplate_thread_messa.Events.Payloads.{
  file_event_payload, app_event_payload, processed_data_payload, transformed_data_payload,
}
use boilerplate_thread_messa.Messaging.Endpoint.{make_sender}
use boilerplate_thread_messa.Messaging.Endpoint.Delivery.{received}
use boilerplate_thread_messa.Observer.{
  set_next, set_direct_to_processing, Observer, Readings, nth_event, emit_direct,
}
use boilerplate_thread_messa.Chain.{AppObserver, ChainWorld}
use boilerplate_thread_messa.Chain.Flow.{
  Chain, Moves, Step, commands, waits, observes, sends_direct, moved, app_takes, app_works,
  processing_takes, processing_works, transformation_takes, transformation_works, result_takes,
  result_works, fresh, Reach, here, later,
}
use boilerplate_thread_messa.Chain.Rounds.{IsSent, round_lem, send_command_keeps}
use boilerplate_thread_messa.Chain.Works.{
  same_file, file_of_app, file_of_processed, file_of_transformed, names_printed, observe_lem,
  direct_lem, process_lem, transform_lem, conclude_lem,
}
use boilerplate_thread_messa.Chain.Names.{names, names-take, names-snoc, names-skip}

-- The names that are on their way, from the last task back to the first.
abbrev pub under_way : Chain → List Text
under_way s =
    names file_of_transformed s.hand_result (s.world.queues 4)
    ++ (names file_of_processed s.hand_transformation (s.world.queues 3)
        ++ (names file_of_app s.hand_processing (s.world.queues 2)
            ++ names same_file s.hand_app (s.world.queues 1)))

-- The names of the first `n` files, in the order of their numbers.
unfoldable pub file_names : ℕ → List Text
file_names zero = []
file_names (suc n) = file_names n ++ ((nth_event (n + 1) 0).file_name ∷ [])

one_more_name :
    (n : ℕ) → file_names n ++ ((nth_event (n + 1) 0).file_name ∷ []) ≡ file_names (n + 1)
unfolding file_names
one_more_name n = let e : suc n ≡ n + 1 = omega arith in ap file_names e

pub record HasLinks (o : Observer) (a : AppObserver) : Type 0 where
  pub next_link : o.m_next ≡ some (make_sender 1 false)
  pub direct_link : o.m_direct_to_processing ≡ some (make_sender 2 false)
  pub app_link : a.m_next ≡ some (make_sender 2 false)
  pub mirror_link : a.m_mirror ≡ some (make_sender 0 false)

-- `before` are the names that were made before the count began.
pub record Inv (before : List Text) (s : Chain) : Type 0 where
  pub links : HasLinks s.incoming s.app
  pub conserved : names_printed s.world ++ under_way s ≡ before ++ file_names s.incoming.count

one_more_behind :
    (before : List Text) (n : ℕ)
    → (before ++ file_names n) ++ ((nth_event (n + 1) 0).file_name ∷ [])
      ≡ before ++ file_names (n + 1)
one_more_behind before n =
    append_assoc before (file_names n) _ ∙ ap (λ xs. before ++ xs) (one_more_name n)

at_end :
    (ps qs bs cs ds xs : List Text)
    → ps ++ (qs ++ (bs ++ (cs ++ (ds ++ xs)))) ≡ (ps ++ (qs ++ (bs ++ (cs ++ ds)))) ++ xs
at_end ps qs bs cs ds xs = simp append_assoc

module _ {before : List Text} {s : Chain} (inv : Inv before s) where
  open inv use {links, conserved}
  open links use {next_link, direct_link, app_link, mirror_link}

  Moves-Inv : {t : Chain} → Moves s t → Inv before t
  Moves-Inv (app_takes e) = record {
    links = links;
    conserved = rw (names-take same_file (s.world.queues 1), ← e) conserved;
  }
  Moves-Inv app_works =
      let (moves, q3, q4, st, n, m) =
        observe_lem s.hand_app s.hand_processing s.app s.world app_link mirror_link in
      record {
        links = record {
          next_link = next_link;
          direct_link = direct_link;
          app_link = n ∙ app_link;
          mirror_link = m ∙ mirror_link;
        };
        conserved = rw (q3, q4, st, moves) conserved;
      }
  Moves-Inv (processing_takes e) = record {
    links = links;
    conserved = rw (names-take file_of_app (s.world.queues 2), ← e) conserved;
  }
  Moves-Inv processing_works =
      let (moves, q1, q4, st) =
        process_lem s.hand_processing s.hand_transformation s.world
          (names same_file s.hand_app (s.world.queues 1)) in
      record { links = links; conserved = rw (q1, q4, st, moves) conserved }
  Moves-Inv (transformation_takes e) = record {
    links = links;
    conserved = rw (names-take file_of_processed (s.world.queues 3), ← e) conserved;
  }
  Moves-Inv transformation_works =
      let (moves, q1, q2, st) = transform_lem s.hand_transformation s.hand_result s.world (
        names file_of_app s.hand_processing (s.world.queues 2)
        ++ names same_file s.hand_app (s.world.queues 1)) in
      record { links = links; conserved = rw (q1, q2, st, moves) conserved }
  Moves-Inv (result_takes e) = record {
    links = links;
    conserved = rw (names-take file_of_transformed (s.world.queues 4), ← e) conserved;
  }
  Moves-Inv (result_works recv_time) =
      let (moves, q1, q2, q3) = conclude_lem recv_time s.hand_result s.world (
        names file_of_processed s.hand_transformation (s.world.queues 3)
        ++ (names file_of_app s.hand_processing (s.world.queues 2)
            ++ names same_file s.hand_app (s.world.queues 1))) in
      record { links = links; conserved = rw (q1, q2, q3, moves) conserved }

  -- The links and the balance behind a round that keeps the event maker's senders.
  links_of :
      (o : Observer)
      → o.m_next ≡ s.incoming.m_next
      → o.m_direct_to_processing ≡ s.incoming.m_direct_to_processing
      → HasLinks o s.app
  links_of o n d = record {
    next_link = n ∙ next_link;
    direct_link = d ∙ direct_link;
    app_link = app_link;
    mirror_link = mirror_link;
  }

  sent_conserved :
      (c : Readings) (w : ChainWorld)
      → IsSent c s.incoming s.world w
      → names_printed w
          ++ (names file_of_transformed s.hand_result (w.queues 4)
              ++ (names file_of_processed s.hand_transformation (w.queues 3)
                  ++ (names file_of_app s.hand_processing (w.queues 2)
                      ++ names same_file s.hand_app (w.queues 1))))
        ≡ before ++ file_names (s.incoming.count + 1)
  sent_conserved c w sent =
      rw
        (
          sent.to_app,
          sent.rest.0,
          sent.rest.1,
          sent.rest.2,
          sent.output,
          names-snoc same_file s.hand_app (s.world.queues 1) _,
          ← one_more_behind before s.incoming.count,
          ← conserved,
        )
        (search at_end)

  -- The direct event has no file name.
  direct_conserved :
      let w = emit_direct s.incoming s.world in
      names_printed w
        ++ (names file_of_transformed s.hand_result (w.queues 4)
            ++ (names file_of_processed s.hand_transformation (w.queues 3)
                ++ (names file_of_app s.hand_processing (w.queues 2)
                    ++ names same_file s.hand_app (w.queues 1))))
      ≡ before ++ file_names s.incoming.count
  direct_conserved =
      let (q2, q1, q3, q4, _, out) = direct_lem s.incoming s.world direct_link in
      rw (q1, q2, q3, q4, out, names-skip file_of_app s.hand_processing (s.world.queues 2) _ refl)
        conserved

  pub Step-Inv : {t : Chain} → Step s t → Inv before t
  Step-Inv (moved m) = Moves-Inv m
  Step-Inv (commands cmd) =
      let (n, d, k) = send_command_keeps cmd s.incoming in
      record {
        links = links_of _ n d;
        conserved = conserved ∙ ap (λ n. before ++ file_names n) (sym k);
      }
  Step-Inv (sends_direct e) = record { links = links; conserved = direct_conserved }
  Step-Inv (waits ws got cmd r e f w) = record {
    links = links_of _ refl refl;
    conserved = conserved;
  }
  Step-Inv (observes c result e) =
      let (n, d, how) = round_lem c result s.incoming s.world next_link in
      elim how [
        | inl (k, same) ↦ record { links = links_of _ n d; conserved = rw (k, same) conserved }
        | inr (k, sent) ↦ record {
          links = links_of _ n d;
          conserved = rw k (sent_conserved c _ sent);
        }
      ]

pub fresh-Inv : Inv [] fresh
unfolding names received set_next set_direct_to_processing file_names
fresh-Inv = record {
  links = record { next_link = refl; direct_link = refl; app_link = refl; mirror_link = refl };
  conserved = refl;
}

pub Reach-Inv : {s : Chain} → Reach fresh s → Inv [] s
Reach-Inv here = fresh-Inv
Reach-Inv (later r st) = Step-Inv (Reach-Inv r) st

-- In every interleaving of the five tasks no file is lost, repeated or overtaken: the names that
-- the result task has printed, and then those still under way, from the last task back to the
-- first, are `file_1.txt`, `file_2.txt` and so on up to the number of the last event made.
pub printed-under_way :
    {s : Chain} → Reach fresh s → names_printed s.world ++ under_way s ≡ file_names s.incoming.count
printed-under_way r = (Reach-Inv r).conserved
