-- ===== src/Start/Refine.antt =====
-- `Start` against the loop over single signals.
use mathlib.Core.Path.{subst}
use renoir.Prelude.{
  ◌≡◌, refl, sym, ◌∙◌, ap, Bool, true, false, not, ◌&&◌, Option, none, some, List, [], ◌∷◌, ◌++◌,
  map, arith, ◌==◌,
}
use renoir.Stream.{StreamElement, flush_batch}
use renoir.Frontier.Map.{Coord}
use renoir.Start.{
  Arrival, message, silence, Start, waits, Drained, returned, emptied, panicked, Handled,
  default_coord, ending, awake, handle, holding, ended_by, enter, at_top, after_handle, drain,
  progress_on, progress, timed_out, receive, settle, start_next,
}
use renoir.Start.Flat.{
  Signal, element, Step, gave, failed, pending, signals, unread, core, take_silent, take_signal,
  flat_enter, flat_top, flat_after, flat_body, flat_next, flatten, core_handled, handle-core,
}

module _ {ℓ} {A : Type ℓ} where
  flat_next-top :
      (k : Start A) (todo : List (Signal A))
      → flat_next k todo ≡ flat_top k todo (λ k'. flat_body flat_next k' todo)
  unfolding flat_next
  flat_next-top k [] = refl
  flat_next-top k (x ∷ todo) = refl

  -- The state that a round leaves when it found the batch empty.
  abbrev Quiet : Drained A → Type ℓ
  Quiet (emptied s) = (ending s ≡ none) × (s ≡ core (awake s))
  Quiet _ = Unit

  after_handle-Quiet :
      (o : Handled A) (f : Start A → Start A) (g : Start A → Drained A)
      → ((t : Start A) → Quiet (g t))
      → Quiet (after_handle o f g)
  after_handle-Quiet none f g h = tt
  after_handle-Quiet (some (some e, t)) f g h = tt
  after_handle-Quiet (some (none, t)) f g h = h t

  enter-Quiet :
      (t r : Bool) (s : Start A) (f : Start A → Drained A)
      → (ended_by t r s ≡ none → Quiet (f (awake s)))
      → Quiet (enter (ended_by t r s) s f)
  enter-Quiet true r s f h = tt
  enter-Quiet false true s f h = tt
  enter-Quiet false false s f h = h refl

  at_top-Quiet :
      (s : Start A) (f : Start A → Drained A)
      → (ending s ≡ none → Quiet (f (awake s)))
      → Quiet (at_top s f)
  at_top-Quiet s f h =
      enter-Quiet (s.missing_terminate == 0) (s.missing_flush_and_restart == 0) s f h

  ended_by-none : (t r : Bool) (s s' : Start A) → ended_by t r s ≡ none → ended_by t r s' ≡ none
  ended_by-none true r s s' e = absurd (ground arith)
  ended_by-none false true s s' e = absurd (ground arith)
  ended_by-none false false s s' e = refl

  not_ended :
      (s s' : Start A)
      → ending s ≡ none
      → ended_by (s.missing_terminate == 0) (s.missing_flush_and_restart == 0) s' ≡ none
  not_ended s s' e =
      ended_by-none (s.missing_terminate == 0) (s.missing_flush_and_restart == 0) s s' e

  drain-Quiet :
      (s : Start A) (sender : Coord) (batch : List (StreamElement A)) → Quiet (drain s sender batch)
  unfolding drain
  drain-Quiet s sender [] =
      at_top-Quiet (holding s sender []) (λ s'. emptied (core s'))
        (λ e. (not_ended (holding s sender []) (core (awake s)) e, refl))
  drain-Quiet s sender (x ∷ batch) = at_top-Quiet (holding s sender (x ∷ batch)) _ λ e.
      after_handle-Quiet (handle (awake (holding s sender (x ∷ batch))) sender x) _ _
        (λ t. drain-Quiet t sender batch)

  progress_on-Quiet :
      (b : Option (Coord × List (StreamElement A))) (s : Start A)
      → s.batch_iter ≡ b
      → Quiet (progress_on b s)
  progress_on-Quiet none s e =
      at_top-Quiet s emptied
        λ q. (not_ended s (awake s) q, ap (λ b. record (awake s) { batch_iter = b }) e)
  progress_on-Quiet (some b) s e = drain-Quiet s b.0 b.1

  abbrev after_drained : Drained A → List (Signal A) → Step A
  after_drained (returned e s) more = gave e (core s) (pending s.batch_iter ++ more)
  after_drained (emptied s) more = flat_body flat_next (core s) more
  after_drained panicked more = failed

  after_handle_lem :
      (o : Handled A) (sender : Coord) (batch : List (StreamElement A)) (more : List (Signal A))
      → ((t : Start A)
          → flat_next (core t) (map (element sender) batch ++ more)
            ≡ after_drained (drain t sender batch) more)
      → flat_after
          (core_handled o)
          (map (element sender) batch ++ more)
          (λ t. flat_next t (map (element sender) batch ++ more))
        ≡ after_drained
            (after_handle o (λ t. holding t sender batch) (λ t. drain t sender batch))
            more
  after_handle_lem none sender batch more h = refl
  after_handle_lem (some (some e, t)) sender batch more h = refl
  after_handle_lem (some (none, t)) sender batch more h = h t

  enter_lem :
      (t r : Bool) (s : Start A) (more : List (Signal A)) (f : Start A → Drained A)
      → flat_body flat_next (awake (core s)) (pending s.batch_iter ++ more)
        ≡ after_drained (f (awake s)) more
      → flat_enter
          (ended_by t r (core s))
          (core s)
          (pending s.batch_iter ++ more)
          (λ k. flat_body flat_next k (pending s.batch_iter ++ more))
        ≡ after_drained (enter (ended_by t r s) s f) more
  enter_lem true r s more f h = refl
  enter_lem false true s more f h = refl
  enter_lem false false s more f h = h

  -- A round of both loops, for what follows the top.
  at_top_lem :
      (s : Start A) (more : List (Signal A)) (f : Start A → Drained A)
      → flat_body flat_next (awake (core s)) (pending s.batch_iter ++ more)
        ≡ after_drained (f (awake s)) more
      → flat_next (core s) (pending s.batch_iter ++ more) ≡ after_drained (at_top s f) more
  at_top_lem s more f h =
      flat_next-top (core s) (pending s.batch_iter ++ more)
      ∙ enter_lem (s.missing_terminate == 0) (s.missing_flush_and_restart == 0) s more f h

  drain_lem :
      (s : Start A) (sender : Coord) (batch : List (StreamElement A)) (more : List (Signal A))
      → flat_next (core s) (map (element sender) batch ++ more)
        ≡ after_drained (drain s sender batch) more
  unfolding drain take_signal
  drain_lem s sender [] more = at_top_lem (holding s sender []) more (λ s'. emptied (core s')) refl
  drain_lem s sender (e ∷ batch) more =
      let o = handle (awake (holding s sender (e ∷ batch))) sender e in
      at_top_lem (holding s sender (e ∷ batch)) more
        (λ s'.
          after_handle (handle s' sender e) (λ t. holding t sender batch)
            (λ t. drain t sender batch))
        (ap
            (λ z.
              flat_after z (map (element sender) batch ++ more)
                (λ t. flat_next t (map (element sender) batch ++ more)))
            (handle-core (awake (holding s sender (e ∷ batch))) sender e)
          ∙ after_handle_lem o sender batch more (λ t. drain_lem t sender batch more))

  progress_on_lem :
      (b : Option (Coord × List (StreamElement A))) (s : Start A) (more : List (Signal A))
      → s.batch_iter ≡ b
      → flat_next (core s) (pending b ++ more) ≡ after_drained (progress_on b s) more
  progress_on_lem none s more e =
      subst (λ b. flat_next (core s) (pending b ++ more) ≡ after_drained (at_top s emptied) more) e
        (at_top_lem s more emptied
          (ap (λ b. flat_body flat_next (awake (core s)) (pending b ++ more)) e))
  progress_on_lem (some b) s more e = drain_lem s b.0 b.1 more

  -- What a call of the flat loop comes to from a state with which `start_next` goes on.
  resume :
      (s : Start A) (todo : List (Signal A))
      → ending s ≡ none
      → flat_next (core s) todo ≡ flat_body flat_next (core (awake s)) todo
  resume s todo q =
      flat_next-top (core s) todo
      ∙ ap (λ o. flat_enter o (core s) todo (λ k. flat_body flat_next k todo))
          (not_ended s (core s) q)

  timed_out_lem :
      (b : Bool) (s : Start A) (net : List (Arrival A))
      → ending s ≡ none
      → s ≡ core (awake s)
      → flat_next (core (timed_out b s)) (unread (timed_out b s) net)
        ≡ flat_after (take_silent b (core s)) (signals net) (λ k. flat_next k (signals net))
  unfolding take_signal
  timed_out_lem true s net q e =
      resume (timed_out true s) (element default_coord flush_batch ∷ signals net)
        (not_ended s (timed_out true s) q)
      ∙ ap
          (λ k.
            flat_after
              (handle (record (core k) { already_timed_out = true }) default_coord flush_batch)
              (signals net) (λ t. flat_next t (signals net)))
          (sym e)
  timed_out_lem false s net q e = ap (λ k. flat_next (core s) (unread k net)) e

  receive_lem :
      (s : Start A) (a : Arrival A) (net : List (Arrival A))
      → ending s ≡ none
      → s ≡ core (awake s)
      → flat_next (core (receive s a)) (unread (receive s a) net)
        ≡ flat_body flat_next (core s) (signals (a ∷ net))
  unfolding take_signal
  receive_lem s (message sender batch) net q e = refl
  receive_lem s silence net q e = timed_out_lem (not s.already_timed_out && s.max_delay) s net q e

  settle_lem :
      (d : Drained A) (a : Arrival A) (net : List (Arrival A))
      → Quiet d
      → ((s : Start A) → flatten (start_next s net) ≡ flat_next (core s) (unread s net))
      → flatten (settle d (a ∷ net) (λ s. start_next (receive s a) net))
        ≡ after_drained d (signals (a ∷ net))
  settle_lem (returned e s) a net q h = refl
  settle_lem (emptied s) a net q h = h (receive s a) ∙ receive_lem s a net q.0 q.1
  settle_lem panicked a net q h = refl

  settle-waits : (d : Drained A) → flatten (settle d [] waits) ≡ after_drained d []
  settle-waits (returned e s) = refl
  settle-waits (emptied s) = refl
  settle-waits panicked = refl

  -- A call of `Start`, with its batches, its timeouts and its fake batches, does what the loop over
  -- single signals does, in every state and for all that the network delivers.
  pub start_next-flat_next :
      (s : Start A) (net : List (Arrival A))
      → flatten (start_next s net) ≡ flat_next (core s) (unread s net)
  unfolding start_next
  start_next-flat_next s [] =
      settle-waits (progress s) ∙ sym (progress_on_lem s.batch_iter s [] refl)
  start_next-flat_next s (a ∷ net) =
      settle_lem (progress s) a net (progress_on-Quiet s.batch_iter s refl)
        (λ t. start_next-flat_next t net)
      ∙ sym (progress_on_lem s.batch_iter s (signals (a ∷ net)) refl)
