-- ===== src/Operator/RichMap/Isolation.antt =====
-- The results for one key of `RichMap` are those of one closure that sees the items of this key.
use mathlib.Core.Path.{subst, ap₂}
use renoir.Prelude.{
  map, ℕ, suc, ◌<◌, length, ◌≡◌, refl, ap, ◌∙◌, some, List, [], ◌∷◌, ◌++◌, All, false, Bool-cases,
  inl, inr, arith, if◌then◌else◌,
}
use renoir.Prelude.Keys.{KeyEq, same, same_left, same_refl}
use renoir.Stream.{
  map_element, StreamElement, item, timestamped, watermark, flush_batch, terminate,
  flush_and_restart,
}
use renoir.Stream.Run.{Upstream, IsGoing, Emits, do_work, do_work-Emits}
use renoir.Operator.Fold.Summary.{values}
use renoir.Operator.RichMap.{call_fn, map_keyed, rich_map_next}

-- The values with the key `k`, in order.
abbrev pub of_key {ℓ} : {K A : Type ℓ} → ⦃key : KeyEq K⦄ → K → List (K × A) → List A
of_key k [] = []
of_key k ((j, v) ∷ ps) = if same j k then v ∷ of_key k ps else of_key k ps

-- The element without its value.
abbrev pub without_value {ℓ} : {K A : Type ℓ} → StreamElement (K × A) → StreamElement K
without_value e = map_element (λ p. p.0) e

module _ {ℓ} {K I O C : Type ℓ} ⦃key : KeyEq K⦄ (map_fn : C → K → I → O × C) (init_map : C) where
  -- The closure of a key.
  abbrev closure_of : K → List (K × C) → C
  closure_of k [] = init_map
  closure_of k ((j, c) ∷ m) = if same j k then c else closure_of k m

  call_fn-result :
      (k : K) (v : I) (m : List (K × C))
      → (call_fn map_fn init_map k v m).0 ≡ (map_fn (closure_of k m) k v).0
  call_fn-result k v [] = refl
  call_fn-result k v ((j, c) ∷ m) = elim (Bool-cases (same j k)) [
    | inl e ↦ rw e refl
    | inr n ↦ rw n (call_fn-result k v m)
  ]

  call_fn-same :
      (k : K) (v : I) (m : List (K × C))
      → closure_of k (call_fn map_fn init_map k v m).1 ≡ (map_fn (closure_of k m) k v).1
  call_fn-same k v [] = rw (same_refl k) refl
  call_fn-same k v ((j, c) ∷ m) = elim (Bool-cases (same j k)) [
    | inl e ↦ rw (e, e) refl
    | inr n ↦ rw (n, n) (call_fn-same k v m)
  ]

  call_fn-other :
      (k j : K) (v : I) (m : List (K × C))
      → same k j ≡ false
      → closure_of j (call_fn map_fn init_map k v m).1 ≡ closure_of j m
  call_fn-other k j v [] ne = rw ne refl
  call_fn-other k j v ((i, c) ∷ m) ne = elim (Bool-cases (same i k)) [
    | inl e ↦ rw (e, same_left i k j e, ne) refl
    | inr n ↦ rw n (ap (λ z. if same i j then c else z) (call_fn-other k j v m ne))
  ]

  -- The results of one closure for the items of one key.
  abbrev pub one_by_one : K → C → List I → List O
  one_by_one k c [] = []
  one_by_one k c (v ∷ vs) = let (o, c') = map_fn c k v in o ∷ one_by_one k c' vs

  -- What the operator returns for a stream, and its closures then.
  abbrev pub rich_mapped :
      List (K × C) → List (StreamElement (K × I)) → List (StreamElement (K × O))
  rich_mapped m [] = []
  rich_mapped m (e ∷ es) = let (e', m') = map_keyed map_fn init_map m e in e' ∷ rich_mapped m' es

  abbrev pub closures : List (K × C) → List (StreamElement (K × I)) → List (K × C)
  closures m [] = m
  closures m (e ∷ es) = closures (map_keyed map_fn init_map m e).1 es

  same-isolated :
      (k : K) (v : I) (m : List (K × C)) (vs : List I) (os : List O)
      → os ≡ one_by_one k (closure_of k (call_fn map_fn init_map k v m).1) vs
      → ((call_fn map_fn init_map k v m).0 ∷ os) ≡ one_by_one k (closure_of k m) (v ∷ vs)
  same-isolated k v m vs os h =
      ap (λ o. o ∷ os) (call_fn-result k v m)
      ∙ ap (λ zs. (map_fn (closure_of k m) k v).0 ∷ zs)
          (h ∙ ap (λ c. one_by_one k c vs) (call_fn-same k v m))

  item-isolated :
      (k j : K) (v : I) (m : List (K × C)) (vs : List I) (os : List O)
      → os ≡ one_by_one j (closure_of j (call_fn map_fn init_map k v m).1) vs
      → (if same k j then (call_fn map_fn init_map k v m).0 ∷ os else os)
        ≡ one_by_one j (closure_of j m) (if same k j then v ∷ vs else vs)
  item-isolated k j v m vs os h = elim (Bool-cases (same k j)) [
    | inl e ↦ rw e (
        subst
          (λ z.
            os ≡ one_by_one z (closure_of z (call_fn map_fn init_map k v m).1) vs
            → ((call_fn map_fn init_map k v m).0 ∷ os) ≡ one_by_one z (closure_of z m) (v ∷ vs))
          ((key.same_iff k j).0 e) (same-isolated k v m vs os) h)
    | inr n ↦ rw n (h ∙ ap (λ c. one_by_one j c vs) (call_fn-other k j v m n))
  ]

  isolated :
      (j : K) (m : List (K × C)) (es : List (StreamElement (K × I)))
      → of_key j (values (rich_mapped m es)) ≡ one_by_one j (closure_of j m) (of_key j (values es))
  isolated j m [] = refl
  isolated j m (item (k, v) ∷ es) =
      item-isolated k j v m (of_key j (values es)) _
        (isolated j (call_fn map_fn init_map k v m).1 es)
  isolated j m (timestamped (k, v) ts ∷ es) =
      item-isolated k j v m (of_key j (values es)) _
        (isolated j (call_fn map_fn init_map k v m).1 es)
  isolated j m (watermark w ∷ es) = isolated j m es
  isolated j m (flush_batch ∷ es) = isolated j m es
  isolated j m (terminate ∷ es) = isolated j m es
  isolated j m (flush_and_restart ∷ es) = isolated j m es

  map_keyed-without_value :
      (m : List (K × C)) (e : StreamElement (K × I))
      → without_value (map_keyed map_fn init_map m e).0 ≡ without_value e
  map_keyed-without_value m (item (k, v)) = refl
  map_keyed-without_value m (timestamped (k, v) ts) = refl
  map_keyed-without_value m (watermark w) = refl
  map_keyed-without_value m flush_batch = refl
  map_keyed-without_value m terminate = refl
  map_keyed-without_value m flush_and_restart = refl

  rich_mapped-without_value :
      (m : List (K × C)) (es : List (StreamElement (K × I)))
      → map without_value (rich_mapped m es) ≡ map without_value es
  rich_mapped-without_value m [] = refl
  rich_mapped-without_value m (e ∷ es) =
      ap₂ ◌∷◌ (map_keyed-without_value m e)
        (rich_mapped-without_value (map_keyed map_fn init_map m e).1 es)

  rich_map-Emits :
      (m : List (K × C)) (up : Upstream (K × I))
      → Emits
          (rich_map_next map_fn init_map)
          (m, up)
          (rich_mapped m up ++ terminate ∷ [])
          (closures m up, [])
  unfolding rich_map_next
  rich_map-Emits m [] = (refl, refl)
  rich_map-Emits m (e ∷ up) = (refl, rich_map-Emits (map_keyed map_fn init_map m e).1 up)

  rich_mapped-IsGoing :
      (m : List (K × C)) (up : Upstream (K × I)) → All IsGoing up → All IsGoing (rich_mapped m up)
  rich_mapped-IsGoing m [] g = tt
  rich_mapped-IsGoing m (item (k, v) ∷ up) g =
      (tt, rich_mapped-IsGoing (call_fn map_fn init_map k v m).1 up g.1)
  rich_mapped-IsGoing m (timestamped (k, v) ts ∷ up) g =
      (tt, rich_mapped-IsGoing (call_fn map_fn init_map k v m).1 up g.1)
  rich_mapped-IsGoing m (watermark w ∷ up) g = (tt, rich_mapped-IsGoing m up g.1)
  rich_mapped-IsGoing m (flush_batch ∷ up) g = (tt, rich_mapped-IsGoing m up g.1)
  rich_mapped-IsGoing m (terminate ∷ up) g = absurd g.0
  rich_mapped-IsGoing m (flush_and_restart ∷ up) g = (tt, rich_mapped-IsGoing m up g.1)

  length-rich_mapped :
      (m : List (K × C)) (up : Upstream (K × I)) → length (rich_mapped m up) ≡ length up
  length-rich_mapped m [] = refl
  length-rich_mapped m (e ∷ up) =
      ap (λ n. suc n) (length-rich_mapped (map_keyed map_fn init_map m e).1 up)

  -- A worker over `RichMap` without closures yet ends, given fuel for each element, on a stream
  -- without a `Terminate`; it passes on `rich_mapped` of the stream, and for each key the results
  -- with this key are, in order, what one copy of the first closure returns for the items with this
  -- key, in order: no other key changes them, and, contrary to the doc of `FlushAndRestart`, the
  -- end of an iteration does not, either. Every element keeps its place, its key and its timestamp.
  pub do_work-rich_map :
      (fuel : ℕ) (up : Upstream (K × I))
      → All IsGoing up
      → length up < fuel
      → (do_work (rich_map_next map_fn init_map) fuel ([], up) ≡ some (rich_mapped [] up))
        × (map without_value (rich_mapped [] up) ≡ map without_value up)
        × ((k : K)
            → of_key k (values (rich_mapped [] up)) ≡ one_by_one k init_map (of_key k (values up)))
  do_work-rich_map fuel up g h = (
    do_work-Emits (rich_map_next map_fn init_map) fuel ([], up) _ (rich_mapped [] up)
        (omega (arith, length-rich_mapped [] up)) (rich_mapped-IsGoing [] up g)
        (rich_map-Emits [] up),
    rich_mapped-without_value [] up,
    λ k. isolated k [] up,
  )
