-- ===== src/Operator/KeyedFlatMap.antt =====
-- src/operator/flat_map.rs (`KeyedFlatMap`) and flatten.rs (`KeyedFlatten`): the loop of `FlatMap`
-- with the key beside the inner iterator. A keyed item is a pair.
use renoir.Prelude.{◌≡◌, refl, Option, none, some, List, [], ◌∷◌, map}
use renoir.Stream.{
  Timestamp, StreamElement, item, timestamped, watermark, flush_batch, terminate, flush_and_restart,
}
use renoir.Stream.Run.{Upstream}
use renoir.Operator.FlatMap.{FlatMap, flat_map_next}

pub record KeyedFlatMap {ℓ} (Key B : Type ℓ) : Type ℓ where
  pub frontiter : Option (Key × List B)
  pub timestamp : Option Timestamp

module _ {ℓ} {Key A B : Type ℓ} (f : Key × A → List B) where
  abbrev pub stamp : Option Timestamp → Key × B → StreamElement (Key × B)
  stamp none kx = item kx
  stamp (some ts) kx = timestamped kx ts

  -- `inner.next()` on the inner iterator, and the state after it.
  abbrev pub front :
      Option (Key × List B)
      → Option Timestamp
      → Option (StreamElement (Key × B) × KeyedFlatMap Key B)
  front none t = none
  front (some (key, [])) t = none
  front (some (key, x ∷ inner)) t =
      some (stamp t (key, x), record { frontiter = some (key, inner); timestamp = t })

  abbrev pub drop_front : KeyedFlatMap Key B → KeyedFlatMap Key B
  drop_front s = record s { frontiter = none }

  abbrev pub refill : StreamElement (Key × A) → KeyedFlatMap Key B → KeyedFlatMap Key B
  refill (item kv) s = record { frontiter = some (kv.0, f kv); timestamp = none }
  refill (timestamped kv ts) s = record { frontiter = some (kv.0, f kv); timestamp = some ts }
  refill _ s = s

  abbrev pub passed : StreamElement (Key × A) → Option (StreamElement (Key × B))
  passed (item kv) = none
  passed (timestamped kv ts) = none
  passed (watermark ts) = some (watermark ts)
  passed flush_batch = some flush_batch
  passed terminate = some terminate
  passed flush_and_restart = some flush_and_restart

  unfoldable pub keyed_flat_map_next :
      KeyedFlatMap Key B × Upstream (Key × A)
      → StreamElement (Key × B) × (KeyedFlatMap Key B × Upstream (Key × A))
  keyed_flat_map_next (s, []) = elim (front s.frontiter s.timestamp) [
    | some (b, s') ↦ (b, (s', []))
    | none ↦ (terminate, (drop_front s, []))
  ]
  keyed_flat_map_next (s, e ∷ prev) =
      let more = keyed_flat_map_next (refill e (drop_front s), prev) in
      elim (front s.frontiter s.timestamp) [
        | some (b, s') ↦ (b, (s', e ∷ prev))
        | none ↦ elim (passed e) [ some b ↦ (b, (drop_front s, prev)) | none ↦ more ]
      ]

  -- The function of the `FlatMap` that does the same, and its state.
  abbrev pub paired : Key × A → List (Key × B)
  paired kv = map (λ y. (kv.0, y)) (f kv)

  abbrev pub pair_front : Option (Key × List B) → Option (List (Key × B))
  pair_front none = none
  pair_front (some (key, inner)) = some (map (λ y. (key, y)) inner)

  abbrev pub unkeyed : KeyedFlatMap Key B → FlatMap (Key × B)
  unkeyed s = record { frontiter = pair_front s.frontiter; timestamp = s.timestamp }

  abbrev pub unkeyed_result :
      StreamElement (Key × B) × (KeyedFlatMap Key B × Upstream (Key × A))
      → StreamElement (Key × B) × (FlatMap (Key × B) × Upstream (Key × A))
  unkeyed_result (b, (s, prev)) = (b, (unkeyed s, prev))

  next-paired :
      (it : Option (Key × List B)) (t : Option Timestamp) (prev : Upstream (Key × A))
      → unkeyed_result (keyed_flat_map_next (record { frontiter = it; timestamp = t }, prev))
        ≡ flat_map_next paired (unkeyed (record { frontiter = it; timestamp = t }), prev)
  unfolding keyed_flat_map_next flat_map_next
  next-paired none t [] = refl
  next-paired none t (item (key, x) ∷ prev) = next-paired (some (key, f (key, x))) none prev
  next-paired none t (timestamped (key, x) ts ∷ prev) =
      next-paired (some (key, f (key, x))) (some ts) prev
  next-paired none t (watermark ts ∷ prev) = refl
  next-paired none t (flush_batch ∷ prev) = refl
  next-paired none t (terminate ∷ prev) = refl
  next-paired none t (flush_and_restart ∷ prev) = refl
  next-paired (some (key, [])) t [] = refl
  next-paired (some (key, [])) t (item (k, x) ∷ prev) = next-paired (some (k, f (k, x))) none prev
  next-paired (some (key, [])) t (timestamped (k, x) ts ∷ prev) =
      next-paired (some (k, f (k, x))) (some ts) prev
  next-paired (some (key, [])) t (watermark ts ∷ prev) = refl
  next-paired (some (key, [])) t (flush_batch ∷ prev) = refl
  next-paired (some (key, [])) t (terminate ∷ prev) = refl
  next-paired (some (key, [])) t (flush_and_restart ∷ prev) = refl
  next-paired (some (key, y ∷ inner)) none [] = refl
  next-paired (some (key, y ∷ inner)) none (e ∷ prev) = refl
  next-paired (some (key, y ∷ inner)) (some ts) [] = refl
  next-paired (some (key, y ∷ inner)) (some ts) (e ∷ prev) = refl

  -- In every state and for every previous operator, a call of `KeyedFlatMap` returns what a call of
  -- `FlatMap` returns with the function that pairs each result with the key, and leaves the state
  -- that corresponds.
  pub keyed_flat_map-flat_map :
      (s : KeyedFlatMap Key B) (prev : Upstream (Key × A))
      → unkeyed_result (keyed_flat_map_next (s, prev)) ≡ flat_map_next paired (unkeyed s, prev)
  keyed_flat_map-flat_map s prev = next-paired s.frontiter s.timestamp prev

-- `KeyedFlatten`, whose items are iterators themselves.
unfoldable pub keyed_flatten_next {ℓ} :
    {Key B : Type ℓ}
    → KeyedFlatMap Key B × Upstream (Key × List B)
    → StreamElement (Key × B) × (KeyedFlatMap Key B × Upstream (Key × List B))
unfolding keyed_flat_map_next
keyed_flatten_next s = keyed_flat_map_next (λ kv. kv.1) s
