-- ===== src/Operator/LimitSorted/Iteration.antt =====
-- `LimitSorted` over the iterations of a stream: the selected items, under the highest timestamp so
-- far, and the highest watermark so far; neither is reset.
use native.Mathlib.Numerals.{unary_clauses}
use renoir.Prelude.{
  ℕ, zero, suc, ◌≤◌, min, ◌≡◌, refl, ap, sym, Bool, true, false, Option, none, some, List, [], ◌∷◌,
  ◌++◌, map, length, All, append-nil, append_assoc, if◌then◌else◌, arith,
}
use renoir.Stream.{
  Timestamp, StreamElement, item, timestamped, watermark, flush_batch, terminate, flush_and_restart,
}
use renoir.Stream.Run.{Upstream, IsData}
use renoir.Stream.Fallible.{Yields, Yields-absorb}
use renoir.Operator.Fold.{raise}
use renoir.Operator.Fold.Summary.{
  values, latest, last_watermark, latest-raise, last_watermark-raise,
}
use renoir.Operator.Fold.Iteration.{stamped}
use renoir.Operator.LimitSorted.{
  State, accumulating, sorting, flushing, restarting, LimitSorted, new, skip, allowed, selected,
  limit_next,
}

abbrev take {ℓ} : {T : Type ℓ} → ℕ → List T → List T
take zero xs = []
take (suc n) [] = []
take (suc n) (x ∷ xs) = x ∷ take n xs

abbrev pub carried {ℓ} : {T : Type ℓ} → Option Timestamp → List (StreamElement T)
carried none = []
carried (some w) = watermark w ∷ []

abbrev pub bounded {ℓ} : {T : Type ℓ} → Option ℕ → List T → List T
bounded none xs = xs
bounded (some n) xs = take n xs

module _ {ℓ} {T : Type ℓ} where
  take-length : (xs : List T) → take (length xs) xs ≡ xs
  take-length [] = refl
  take-length (x ∷ xs) = ap (λ ys. x ∷ ys) (take-length xs)

  take-min : (n : ℕ) (xs : List T) → take (min n (length xs)) xs ≡ take n xs
  take-min zero xs = simp unary_clauses
  take-min (suc n) [] = simp unary_clauses
  take-min (suc n) (x ∷ xs) = simp (unary_clauses, take-min n xs)

  take-allowed : (limit : Option ℕ) (xs : List T) → take (allowed limit xs) xs ≡ bounded limit xs
  take-allowed none xs = take-length xs
  take-allowed (some n) xs = take-min n xs

  allowed-≤ : (limit : Option ℕ) (xs : List T) → allowed limit xs ≤ length xs
  allowed-≤ none xs = omega arith
  allowed-≤ (some n) xs = omega arith

module _ {ℓ} {T : Type ℓ} (sort : List T → List T) (limit offset : Option ℕ) (sorted : Bool) where
  -- The operator in the state `st`.
  abbrev pub in_state : State T → Option Timestamp → Option Timestamp → Bool → LimitSorted T
  in_state st t w ended = record (new sort limit offset sorted) {
    state = st;
    timestamp = t;
    max_watermark = w;
    received_end = ended;
  }

  -- The first `limit` of the items after the first `offset`.
  abbrev pub limited : List T → List T
  limited xs = bounded limit (skip offset (if sorted then sort xs else xs))

  pub limit_next-sorting :
      (items : List T) (t w : Option Timestamp) (ended : Bool) (prev : Upstream T)
      → limit_next sort (in_state (sorting items) t w ended, prev)
        ≡ limit_next sort (
          in_state
              (flushing
                (selected sort (in_state (sorting items) t w ended) items)
                (allowed limit (selected sort (in_state (sorting items) t w ended) items)))
              t
              w
              ended,
          prev,
        )
  unfolding limit_next
  limit_next-sorting items t w ended [] = refl
  limit_next-sorting items t w ended (e ∷ prev) = refl

  pub limit_next-ending :
      (t w : Option Timestamp)
      → limit_next sort (in_state (accumulating []) t w false, [])
        ≡ limit_next sort (in_state (sorting []) t w true, [])
  unfolding limit_next
  limit_next-ending t w = refl

  restart-Yields :
      (t w : Option Timestamp) (prev : Upstream T)
      → Yields
          (limit_next sort)
          (in_state restarting t w false, prev)
          (flush_and_restart ∷ [])
          (in_state (accumulating []) t w false, prev)
  unfolding limit_next
  restart-Yields t w [] = (_, refl, refl)
  restart-Yields t w (e ∷ prev) = (_, refl, refl)

  flush-Yields :
      (xs : List T) (n : ℕ) (t w : Option Timestamp) (prev : Upstream T)
      → n ≤ length xs
      → Yields
          (limit_next sort)
          (in_state (flushing xs n) t w false, prev)
          ((map (stamped t) (take n xs) ++ carried w) ++ flush_and_restart ∷ [])
          (in_state (accumulating []) t w false, prev)
  unfolding limit_next
  flush-Yields xs zero t none [] h = (_, refl, refl)
  flush-Yields xs zero t none (e ∷ prev) h = (_, refl, refl)
  flush-Yields xs zero t (some w) [] h = (_, refl, restart-Yields t (some w) [])
  flush-Yields xs zero t (some w) (e ∷ prev) h = (_, refl, restart-Yields t (some w) (e ∷ prev))
  flush-Yields [] (suc n) t w prev h = absurd (omega arith)
  flush-Yields (x ∷ xs) (suc n) none w [] h = (_, refl, flush-Yields xs n none w [] (omega arith))
  flush-Yields (x ∷ xs) (suc n) none w (e ∷ prev) h =
      (_, refl, flush-Yields xs n none w (e ∷ prev) (omega arith))
  flush-Yields (x ∷ xs) (suc n) (some ts) w [] h =
      (_, refl, flush-Yields xs n (some ts) w [] (omega arith))
  flush-Yields (x ∷ xs) (suc n) (some ts) w (e ∷ prev) h =
      (_, refl, flush-Yields xs n (some ts) w (e ∷ prev) (omega arith))

  -- From the last of an iteration's items on.
  sorting-Yields :
      (xs : List T) (t w : Option Timestamp) (prev : Upstream T)
      → Yields
          (limit_next sort)
          (in_state (sorting xs) t w false, prev)
          ((map (stamped t) (limited xs) ++ carried w) ++ flush_and_restart ∷ [])
          (in_state (accumulating []) t w false, prev)
  sorting-Yields xs t w prev =
      let ys = skip offset (if sorted then sort xs else xs) in
      Yields-absorb (limit_next sort) _ _ _ flush_and_restart _
        (limit_next-sorting xs t w false prev)
        (rw (sym (take-allowed limit ys))
          (flush-Yields ys (allowed limit ys) t w prev (allowed-≤ limit ys)))

  pub collect-Yields :
      (buf : List T) (t w : Option Timestamp) (es : List (StreamElement T)) (prev : Upstream T)
      → All IsData es
      → Yields
          (limit_next sort)
          (in_state (accumulating buf) t w false, es ++ flush_and_restart ∷ prev)
          ((map (stamped (latest t es)) (limited (buf ++ values es))
              ++ carried (last_watermark w es))
            ++ flush_and_restart ∷ [])
          (in_state (accumulating []) (latest t es) (last_watermark w es) false, prev)
  unfolding limit_next
  collect-Yields buf t w [] prev d =
      rw (append-nil buf) (
        Yields-absorb (limit_next sort) _ _ _ flush_and_restart _ refl
          (sorting-Yields buf t w prev))
  collect-Yields buf t w (item x ∷ es) prev d = rw (sym (append_assoc buf (x ∷ []) (values es))) (
      Yields-absorb (limit_next sort) _ _ _ flush_and_restart _ refl
        (collect-Yields (buf ++ x ∷ []) t w es prev d.1))
  collect-Yields buf t w (timestamped x ts ∷ es) prev d =
      rw (sym (append_assoc buf (x ∷ []) (values es)), sym (latest-raise t x ts es))
        (Yields-absorb (limit_next sort) _ _ _ flush_and_restart _ refl
          (collect-Yields (buf ++ x ∷ []) (raise t ts) w es prev d.1))
  collect-Yields buf t w (watermark ts ∷ es) prev d = rw (sym (last_watermark-raise w ts es)) (
      Yields-absorb (limit_next sort) _ _ _ flush_and_restart _ refl
        (collect-Yields buf t (raise w ts) es prev d.1))
  collect-Yields buf t w (flush_batch ∷ es) prev d =
      Yields-absorb (limit_next sort) _ _ _ flush_and_restart _ refl
        (collect-Yields buf t w es prev d.1)
  collect-Yields buf t w (terminate ∷ es) prev d = absurd d.0
  collect-Yields buf t w (flush_and_restart ∷ es) prev d = absurd d.0
