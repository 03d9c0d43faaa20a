-- ===== src/Start/Ledger.antt =====
-- What `Start` has read since the last restart, and what each element that it returns then means.
use renoir.Prelude.{
  ℕ, not, ◌&&◌, if◌then◌else◌, ◌+◌, ◌<◌, ◌≤◌, ◌≡◌, ◌≢◌, refl, Bool, true, false, Option, none, some,
  List, [], ◌∷◌, ◌++◌, length, arith, All, Any, inl, inr,
}
use renoir.Stream.{
  Timestamp, timestamp_max, StreamElement, item, timestamped, watermark, flush_batch, terminate,
  flush_and_restart,
}
use renoir.Frontier.{WatermarkFrontier, update}
use renoir.Frontier.Map.{Coord}
use renoir.Frontier.Best.{History, Safe}
use renoir.Frontier.Safety.{Reach, start, received, update-Announces, update-eq-none}
use renoir.Start.{Start, Handled, setup, handle, safe_watermark, replica_ended}
use renoir.Start.Flat.{Signal, element, opened, silent, take_silent, take_signal}

-- The watermarks since the last restart, the latest first, an end counting as the highest one; the
-- replicas that ended the iteration; those that terminated.
pub record Log : Type 0 where
  pub history : History
  pub ended : ℕ
  pub terminated : ℕ

abbrev pub empty_log : Log
empty_log = record { history = []; ended = 0; terminated = 0 }

module _ {ℓ} {A : Type ℓ} where
  abbrev pub note : Log → Signal A → Log
  note log (element c (watermark ts)) = record log { history = (c, ts) ∷ log.history }
  note log (element c flush_and_restart) = record log {
    history = (c, timestamp_max) ∷ log.history;
    ended = log.ended + 1;
  }
  note log (element c terminate) = record log { terminated = log.terminated + 1 }
  note log (element c _) = log
  note log opened = log
  note log silent = log

  abbrev pub noted : Log → List (Signal A) → Log
  noted log [] = log
  noted log (x ∷ xs) = noted (note log x) xs

  -- The log after a call that returns `e`.
  abbrev pub closed : Log → StreamElement A → Log
  closed log flush_and_restart = record log { history = []; ended = 0 }
  closed log _ = log

  abbrev pub item_of : StreamElement A → List (A × Option Timestamp)
  item_of (item x) = (x, none) ∷ []
  item_of (timestamped x ts) = (x, some ts) ∷ []
  item_of _ = []

  abbrev pub item_in : Signal A → List (A × Option Timestamp)
  item_in (element c e) = item_of e
  item_in opened = []
  item_in silent = []

  -- The items of the signals, in order.
  abbrev pub items : List (Signal A) → List (A × Option Timestamp)
  items [] = []
  items (x ∷ xs) = item_in x ++ items xs

module _ {ℓ} {A : Type ℓ} (replicas : List Coord) where
  -- What a returned element says of the log.
  abbrev pub Verdict : Log → StreamElement A → Type 0
  Verdict log (watermark w) =
      Safe replicas log.history w × ((ts : Timestamp) → Safe replicas log.history ts → ts ≤ w)
  Verdict log flush_and_restart = log.ended ≡ length replicas
  Verdict log terminate = log.terminated ≡ length replicas
  Verdict log _ = Unit

  -- The state of `Start` agrees with the log.
  pub record Ledger (log : Log) (s : Start A) : Type 0 where
    pub reach : Reach replicas log.history s.watermark_frontier
    pub ends : log.ended + s.missing_flush_and_restart ≡ length replicas
    pub terminates : log.terminated + s.missing_terminate ≡ length replicas
    pub total : s.num_previous_replicas ≡ length replicas

  -- Watermarks and ends come from the previous replicas.
  abbrev pub Known : Signal A → Type 0
  Known (element c (watermark ts)) = Any (λ r. r ≡ c) replicas
  Known (element c flush_and_restart) = Any (λ r. r ≡ c) replicas
  Known _ = Unit

  abbrev pub Returned : Log → List (Signal A) → StreamElement A → Start A → Type ℓ
  Returned log read e s =
      (items read ≡ item_of e) × Verdict (noted log read) e × Ledger (closed (noted log read) e) s

  abbrev pub Handles : Log → Signal A → Handled A → Type ℓ
  Handles log x none = ⊥ × Unit {ℓ}
  Handles log x (some (some e, s)) = Returned log (x ∷ []) e s
  Handles log x (some (none, s)) = (item_in x ≡ []) × Ledger (note log x) s

pub setup-Ledger {ℓ} :
    {A : Type ℓ} (max_delay : Bool) (replicas : List Coord)
    → Ledger replicas empty_log (setup {A = A} max_delay replicas)
unfolding setup
setup-Ledger max_delay replicas = record {
  reach = start;
  ends = omega arith;
  terminates = omega arith;
  total = refl;
}

not-All : (c : Coord) (rs : List Coord) → Any (λ r. r ≡ c) rs → All (λ r. r ≢ c) rs → ⊥
not-All c [] a n = a
not-All c (r ∷ rs) (inl e) n = n.0 e
not-All c (r ∷ rs) (inr a) n = not-All c rs a n.1

module _ {ℓ} {A : Type ℓ} (r : Coord) (rs : List Coord) {log : Log} {s : Start A}
    (l : Ledger (r ∷ rs) log s) where
  safe_watermark-Handles :
      (c : Coord) (ts : Timestamp) (o : Option (Option Timestamp × WatermarkFrontier))
      → Any (λ d. d ≡ c) (r ∷ rs)
      → update s.watermark_frontier c ts ≡ o
      → Handles (r ∷ rs) log (element c (watermark ts)) (safe_watermark s o)
  safe_watermark-Handles c ts none known e = absurd (
      not-All c (r ∷ rs) known
        ((update-eq-none (r ∷ rs) log.history s.watermark_frontier c ts l.reach).0 e))
  safe_watermark-Handles c ts (some (none, f)) known e = (
    refl,
    record {
      reach = received l.reach c ts none e;
      ends = l.ends;
      terminates = l.terminates;
      total = l.total;
    },
  )
  safe_watermark-Handles c ts (some (some w, f)) known e =
      let (safe, fresh, best) =
        update-Announces r rs log.history s.watermark_frontier f c ts (some w) l.reach e in
      (
        refl,
        (safe, best),
        record {
          reach = received l.reach c ts (some w) e;
          ends = l.ends;
          terminates = l.terminates;
          total = l.total;
        },
      )

  replica_ended-Handles :
      (c : Coord) (o : Option (Option Timestamp × WatermarkFrontier))
      → Any (λ d. d ≡ c) (r ∷ rs)
      → 0 < s.missing_flush_and_restart
      → update s.watermark_frontier c timestamp_max ≡ o
      → Handles (r ∷ rs) log (element c flush_and_restart) (replica_ended s o)
  replica_ended-Handles c none known h e = absurd (
      not-All c (r ∷ rs) known
        ((update-eq-none (r ∷ rs) log.history s.watermark_frontier c timestamp_max l.reach).0 e))
  replica_ended-Handles c (some (o, f)) known h e = (
    refl,
    record {
      reach = received l.reach c timestamp_max o e;
      ends = omega (arith, l.ends);
      terminates = l.terminates;
      total = l.total;
    },
  )

  -- The fields that the log does not speak of.
  pub keep-Ledger :
      (flushed timed wait : Bool) (b : Option (Coord × List (StreamElement A))) (generation : ℕ)
      → Ledger (r ∷ rs) log (record s {
        flushed_batch = flushed;
        already_timed_out = timed;
        wait_for_state = wait;
        batch_iter = b;
        state_generation = generation;
      })
  keep-Ledger flushed timed wait b generation = record {
    reach = l.reach;
    ends = l.ends;
    terminates = l.terminates;
    total = l.total;
  }

  flush-Handles :
      (c : Coord) (b : Bool)
      → Handles
          (r ∷ rs)
          log
          (element c flush_batch)
          (if b then some (none, s) else some (some flush_batch, record s { flushed_batch = true }))
  flush-Handles c true = (refl, l)
  flush-Handles c false = (refl, tt, keep-Ledger true _ _ _ _)

  silent-Handles :
      (b : Bool)
      → Handles (r ∷ rs) log silent (
          if b
          then some (none, record s { already_timed_out = true })
          else some (some flush_batch, record s { flushed_batch = true; already_timed_out = true }))
  silent-Handles true = (refl, keep-Ledger _ true _ _ _)
  silent-Handles false = (refl, tt, keep-Ledger true true _ _ _)

  take_silent-Handles : (b : Bool) → Handles (r ∷ rs) log silent (take_silent b s)
  unfolding handle
  take_silent-Handles true = silent-Handles s.flushed_batch
  take_silent-Handles false = (refl, l)

  -- In a state that agrees with the log, with both counters above zero, a signal never panics, and
  -- leaves a state that agrees with the log.
  pub take_signal-Handles :
      (x : Signal A)
      → Known (r ∷ rs) x
      → 0 < s.missing_flush_and_restart
      → 0 < s.missing_terminate
      → Handles (r ∷ rs) log x (take_signal s x)
  unfolding take_signal handle
  take_signal-Handles (element c (item x)) known hf ht = (refl, tt, keep-Ledger false _ _ _ _)
  take_signal-Handles (element c (timestamped x ts)) known hf ht =
      (refl, tt, keep-Ledger false _ _ _ _)
  take_signal-Handles (element c (watermark ts)) known hf ht =
      safe_watermark-Handles c ts _ known refl
  take_signal-Handles (element c flush_batch) known hf ht = flush-Handles c s.flushed_batch
  take_signal-Handles (element c terminate) known hf ht = (
    refl,
    record {
      reach = l.reach;
      ends = l.ends;
      terminates = omega (arith, l.terminates);
      total = l.total;
    },
  )
  take_signal-Handles (element c flush_and_restart) known hf ht =
      replica_ended-Handles c _ known hf refl
  take_signal-Handles opened known hf ht = (refl, keep-Ledger _ false _ _ _)
  take_signal-Handles silent known hf ht =
      take_silent-Handles (not s.already_timed_out && s.max_delay)
