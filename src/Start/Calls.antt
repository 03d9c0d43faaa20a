-- ===== src/Start/Calls.antt =====
-- Each call of `Start`, from any state that agrees with the log of what it has read.
use mathlib.Core.Path.{subst}
use renoir.Prelude.{
  ◌<◌, ◌≡◌, refl, sym, ap, ◌∙◌, Bool, true, false, none, some, List, [], ◌∷◌, ◌++◌, arith, ◌==◌,
  All,
}
use renoir.Stream.{StreamElement}
use renoir.Frontier.Map.{Coord}
use renoir.Frontier.Safety.{restarted}
use renoir.Start.{
  Arrival, Start, Handled, Outcome, returns, waits, panics, ended_by, awake, start_next,
}
use renoir.Start.Flat.{
  Signal, Step, gave, idle, failed, unread, core, take_signal, flat_enter, flat_after, flat_next,
  flatten,
}
use renoir.Start.Refine.{start_next-flat_next}
use renoir.Start.Ledger.{
  Log, note, noted, closed, item_in, items, Ledger, Known, Returned, Handles, keep-Ledger,
  take_signal-Handles,
}

module _ {ℓ} {A : Type ℓ} (r : Coord) (rs : List Coord) where
  abbrev Explained : Log → List (Signal A) → Step A → Type ℓ
  Explained log todo (gave e k todo') =
      (read : List (Signal A)) × (todo ≡ read ++ todo') × Returned (r ∷ rs) log read e k
  Explained log todo (idle k) = (items todo ≡ []) × Ledger (r ∷ rs) (noted log todo) k
  Explained log todo failed = ⊥ × Unit {ℓ}

  enter-Explained :
      (log : Log) (k : Start A) (todo : List (Signal A)) (f : Start A → Step A) (t b : Bool)
      → Ledger (r ∷ rs) log k
      → (k.missing_terminate == 0) ≡ t
      → (k.missing_flush_and_restart == 0) ≡ b
      → (0 < k.missing_terminate
          → 0 < k.missing_flush_and_restart
          → Explained log todo (f (awake k)))
      → Explained log todo (flat_enter (ended_by t b k) k todo f)
  enter-Explained log k todo f true b l p q h = ([], refl, (refl, ground (arith, l.terminates), l))
  enter-Explained log k todo f false true l p q h = (
    [],
    refl,
    (
      refl,
      ground (arith, l.ends),
      record {
        reach = restarted l.reach;
        ends = omega (arith, l.total);
        terminates = l.terminates;
        total = l.total;
      },
    ),
  )
  enter-Explained log k todo f false false l p q h = h (ground arith) (ground arith)

  extend-Explained :
      (log : Log) (x : Signal A) (todo : List (Signal A)) (d : Step A)
      → item_in x ≡ []
      → Explained (note log x) todo d
      → Explained log (x ∷ todo) d
  extend-Explained log x todo (gave e k todo') p (read, q, (i, v, l)) =
      (x ∷ read, ap (λ l. x ∷ l) q, (ap (λ l. l ++ items read) p ∙ i, v, l))
  extend-Explained log x todo (idle k) p (i, l) = (ap (λ l. l ++ items todo) p ∙ i, l)
  extend-Explained log x todo failed p h = h

  after-Explained :
      (log : Log) (x : Signal A) (todo : List (Signal A)) (o : Handled A)
      → Handles (r ∷ rs) log x o
      → ((k : Start A)
          → Ledger (r ∷ rs) (note log x) k
          → Explained (note log x) todo (flat_next k todo))
      → Explained log (x ∷ todo) (flat_after o todo (λ k. flat_next k todo))
  after-Explained log x todo none h rest = h
  after-Explained log x todo (some (some e, k)) h rest = (x ∷ [], refl, h)
  after-Explained log x todo (some (none, k)) h rest =
      extend-Explained log x todo (flat_next k todo) h.0 (rest k h.1)

  flat_next-Explained :
      (log : Log) (k : Start A) (todo : List (Signal A))
      → Ledger (r ∷ rs) log k
      → All (Known (r ∷ rs)) todo
      → Explained log todo (flat_next k todo)
  unfolding flat_next
  flat_next-Explained log k [] l known =
      enter-Explained log k [] idle _ _ l refl refl
        (λ ht hf. (refl, keep-Ledger r rs l _ _ false _ _))
  flat_next-Explained log k (x ∷ todo) l known =
      enter-Explained log k (x ∷ todo) _ _ _ l refl refl λ ht hf.
        after-Explained log x todo (take_signal (awake k) x)
          (take_signal-Handles r rs (keep-Ledger r rs l _ _ false _ _) x known.0 hf ht)
          (λ t lt. flat_next-Explained (note log x) t todo lt known.1)

  -- What a call from a state with the log `log` comes to.
  abbrev pub Explains : Log → Start A → List (Arrival A) → Outcome A → Type ℓ
  Explains log s net (returns e t net') =
      (read : List (Signal A)) × (unread s net ≡ read ++ unread t net')
      × Returned (r ∷ rs) log read e t
  Explains log s net (waits t) =
      (items (unread s net) ≡ []) × Ledger (r ∷ rs) (noted log (unread s net)) t
  Explains log s net panics = ⊥ × Unit {ℓ}

  keep_batch :
      (log : Log) (e : StreamElement A) (t : Start A) (read : List (Signal A))
      → Ledger (r ∷ rs) (closed (noted log read) e) (core t)
      → Ledger (r ∷ rs) (closed (noted log read) e) t
  keep_batch log e t read l = keep-Ledger r rs l _ _ _ t.batch_iter _

  flatten-Explains :
      (log : Log) (s : Start A) (net : List (Arrival A)) (o : Outcome A)
      → Explained log (unread s net) (flatten o)
      → Explains log s net o
  flatten-Explains log s net (returns e t net') (read, q, (i, v, l)) =
      (read, q, (i, v, keep_batch log e t read l))
  flatten-Explains log s net (waits t) (i, l) = (i, keep-Ledger r rs l _ _ _ t.batch_iter _)
  flatten-Explains log s net panics h = h

  -- With one or more previous replicas, from any state that agrees with the log of what `Start` has
  -- read, and when watermarks and ends come from the previous replicas, a call never panics, reads
  -- signals in their order and leaves a state that agrees with the log extended by them. If it
  -- returns an element, the items that it read are the one of that element, if any; a watermark is
  -- then the highest timestamp that every previous replica has reached since the last restart, a
  -- `FlushAndRestart` means that as many ends of the iteration as there are replicas were read, a
  -- `Terminate` the same of terminations. If it waits, it has read everything and found no item.
  pub start_next-Explains :
      (log : Log) (s : Start A) (net : List (Arrival A))
      → Ledger (r ∷ rs) log s
      → All (Known (r ∷ rs)) (unread s net)
      → Explains log s net (start_next s net)
  start_next-Explains log s net l known = flatten-Explains log s net (start_next s net) (
      subst (Explained log (unread s net)) (sym (start_next-flat_next s net))
        (flat_next-Explained log (core s) (unread s net) (keep-Ledger r rs l _ _ _ none _) known))
