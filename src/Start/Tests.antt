-- ===== src/Start/Tests.antt =====
-- Runs of `Start`, and its theorems at concrete inputs.
use renoir.Prelude.{ℕ, ◌≡◌, refl, true, false, some, List, [], ◌∷◌, inl, inr}
use renoir.Stream.{item, watermark, flush_and_restart}
use renoir.Frontier.{new as frontier_new, update, advance, compute_frontier}
use renoir.Frontier.Map.{Coord, Coord-discrete, get, set, collect, collect_into, insert}
use renoir.Start.{Arrival, message, silence, Start, returns, setup, handle, drain, start_next}
use renoir.Start.Flat.{flat_next, flatten, core, unread}
use renoir.Start.Refine.{start_next-flat_next}
use renoir.Start.Ledger.{empty_log, setup-Ledger}
use renoir.Start.Calls.{Explains, start_next-Explains}

abbrev replica : ℕ → Coord
replica n = record { block_id = 1; host_id = 0; replica_id = n }

abbrev two : List Coord
two = replica 0 ∷ replica 1 ∷ []

-- An item and a watermark of the first replica, a silence, then a watermark of the second.
abbrev net : List (Arrival ℕ)
net =
    message (replica 0) (watermark 20 ∷ [])
    ∷ message (replica 1) (watermark 15 ∷ item 42 ∷ [])
    ∷ silence
    ∷ message (replica 0) (flush_and_restart ∷ [])
    ∷ []

abbrev first : Start ℕ
first = setup true two

abbrev after_first : Start ℕ
after_first = record {
  max_delay = true;
  batch_iter = some (replica 1, item 42 ∷ []);
  missing_terminate = 2;
  missing_flush_and_restart = 2;
  num_previous_replicas = 2;
  flushed_batch = false;
  already_timed_out = false;
  watermark_frontier = record {
    entries = (replica 0, some 20) ∷ (replica 1, some 15) ∷ [];
    front = some 15;
  };
  wait_for_state = false;
  state_generation = 0;
}

-- The first call returns the watermark that both replicas have reached.
first_call :
    start_next first net
    ≡ returns
        (watermark 15)
        after_first
        (silence ∷ message (replica 0) (flush_and_restart ∷ []) ∷ [])
unfolding start_next drain handle setup frontier_new collect collect_into insert update advance
    compute_frontier get set Coord-discrete
first_call = refl

start_next-flat_next_example :
    flatten (start_next first net) ≡ flat_next (core first) (unread first net)
start_next-flat_next_example = start_next-flat_next first net

start_next-Explains_example : Explains (replica 0) (replica 1 ∷ []) empty_log first net (
    returns
      (watermark 15)
      after_first
      (silence ∷ message (replica 0) (flush_and_restart ∷ []) ∷ []))
unfolding start_next drain handle setup frontier_new collect collect_into insert update advance
    compute_frontier get set Coord-discrete
start_next-Explains_example =
    start_next-Explains (replica 0) (replica 1 ∷ []) empty_log first net (setup-Ledger true two)
      (tt, (inl refl, (tt, (inr (inl refl), (tt, (tt, (tt, (inl refl, tt))))))))
