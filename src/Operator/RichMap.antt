-- ===== src/Operator/RichMap.antt =====
-- src/operator/rich_map.rs: a closure carries a state of any type, and each key has its own copy.
pub mod Isolation
mod Tests
use renoir.Prelude.{List, [], ◌∷◌, if◌then◌else◌}
use renoir.Prelude.Keys.{KeyEq, same}
use renoir.Stream.{
  StreamElement, item, timestamped, watermark, flush_batch, terminate, flush_and_restart,
}
use renoir.Stream.Run.{Upstream, pull}

module _ {ℓ} {K I O C : Type ℓ} ⦃key : KeyEq K⦄ (map_fn : C → K → I → O × C) (init_map : C) where
  -- The call of the closure of the key, which is a new copy of `init_map` if the key has none.
  abbrev pub call_fn : K → I → List (K × C) → O × List (K × C)
  call_fn k v [] = let (o, c) = map_fn init_map k v in (o, (k, c) ∷ [])
  call_fn k v ((j, c) ∷ maps_fn) =
      let (o, c') = map_fn c k v in
      let (p, rest) = call_fn k v maps_fn in
      if same j k then (o, (j, c') ∷ maps_fn) else (p, (j, c) ∷ rest)

  -- `element.map(...)`
  abbrev pub map_keyed : List (K × C) → StreamElement (K × I) → StreamElement (K × O) × List (K × C)
  map_keyed maps_fn (item (k, v)) =
      let (o, maps_fn') = call_fn k v maps_fn in (item (k, o), maps_fn')
  map_keyed maps_fn (timestamped (k, v) ts) =
      let (o, maps_fn') = call_fn k v maps_fn in (timestamped (k, o) ts, maps_fn')
  map_keyed maps_fn (watermark w) = (watermark w, maps_fn)
  map_keyed maps_fn flush_batch = (flush_batch, maps_fn)
  map_keyed maps_fn terminate = (terminate, maps_fn)
  map_keyed maps_fn flush_and_restart = (flush_and_restart, maps_fn)

  unfoldable pub rich_map_next :
      List (K × C) × Upstream (K × I) → StreamElement (K × O) × (List (K × C) × Upstream (K × I))
  rich_map_next (maps_fn, prev) =
      let (element, prev') = pull prev in
      let (e, maps_fn') = map_keyed maps_fn element in (e, (maps_fn', prev'))
