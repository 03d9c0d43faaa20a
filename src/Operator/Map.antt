-- ===== src/Operator/Map.antt =====
-- src/operator/map.rs and key_by.rs: operators that change each item and keep its place.
use renoir.Prelude.{◌≡◌, refl, List, [], ◌∷◌, ◌++◌, map, All}
use renoir.Stream.{
  StreamElement, item, timestamped, watermark, flush_batch, terminate, flush_and_restart,
  map_element,
}
use renoir.Stream.Run.{Upstream, pull, IsData, IsGoing, Emits, Transforms}

module _ {ℓ} {A B : Type ℓ} (f : A → B) where
  unfoldable pub map_next : Unit {ℓ} × Upstream A → StreamElement B × (Unit {ℓ} × Upstream A)
  map_next (u, prev) = let (e, prev') = pull prev in (map_element f e, (u, prev'))

  map_iteration :
      (u : Unit {ℓ}) (xs : List (StreamElement A)) (rest : Upstream A)
      → Emits map_next
          (u, xs ++ flush_and_restart ∷ rest)
          (map (map_element f) xs ++ flush_and_restart ∷ [])
          (u, rest)
  unfolding map_next
  map_iteration u [] rest = (refl, refl)
  map_iteration u (e ∷ xs) rest = (refl, map_iteration u xs rest)

  map_element-IsGoing : (e : StreamElement A) → IsData e → IsGoing (map_element f e)
  map_element-IsGoing terminate d = d
  map_element-IsGoing _ d = tt

  map-IsGoing : (xs : List (StreamElement A)) → All IsData xs → All IsGoing (map (map_element f) xs)
  map-IsGoing [] d = tt
  map-IsGoing (e ∷ xs) d = (map_element-IsGoing e d.0, map-IsGoing xs d.1)

  pub map-Transforms : Transforms map_next (λ u. Unit {ℓ}) (map (map_element f))
  unfolding map_next
  map-Transforms = record {
    iteration = λ u xs rest idle d. (u, tt, map_iteration u xs rest);
    ending = λ u idle. refl;
    data_only = map-IsGoing;
  }

module _ {ℓ} {Key A : Type ℓ} (keyer : A → Key) where
  abbrev pub with_key : StreamElement A → StreamElement (Key × A)
  with_key (item t) = item (keyer t, t)
  with_key (timestamped t ts) = timestamped (keyer t, t) ts
  with_key (watermark w) = watermark w
  with_key terminate = terminate
  with_key flush_and_restart = flush_and_restart
  with_key flush_batch = flush_batch

  unfoldable pub key_by_next :
      Unit {ℓ} × Upstream A → StreamElement (Key × A) × (Unit {ℓ} × Upstream A)
  key_by_next (u, prev) = let (e, prev') = pull prev in (with_key e, (u, prev'))

  with_key-map : (e : StreamElement A) → with_key e ≡ map_element (λ t. (keyer t, t)) e
  with_key-map flush_batch = refl
  with_key-map _ = refl

  -- `KeyBy` is `Map` with a function that pairs the item with its key.
  pub key_by-eq-map : (s : Unit {ℓ} × Upstream A) → key_by_next s ≡ map_next (λ t. (keyer t, t)) s
  unfolding key_by_next map_next
  key_by-eq-map (u, []) = refl
  key_by-eq-map (u, e ∷ prev) = rw (with_key-map e)
