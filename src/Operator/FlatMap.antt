-- ===== src/Operator/FlatMap.antt =====
-- src/operator/flat_map.rs (`FlatMap`), and flatten.rs, which is the same with `into_iter` for the
-- function. The iterator that the function returns is the list of its items.
use renoir.Prelude.{
  ℕ, ◌<◌, length, ◌≡◌, refl, Option, none, some, List, [], ◌∷◌, ◌++◌, map, All, All-append,
  append_assoc,
}
use renoir.Stream.{
  Timestamp, StreamElement, item, timestamped, watermark, flush_batch, terminate, flush_and_restart,
}
use renoir.Stream.Run.{
  Upstream, IsData, IsGoing, Emits, Emits-absorb, Emits-emit, Emits-append, Transforms, do_work,
  do_work-Transforms, stream,
}

pub record FlatMap {ℓ} (B : Type ℓ) : Type ℓ where
  pub frontiter : Option (List B)
  pub timestamp : Option Timestamp

items-IsGoing {ℓ} :
    {B : Type ℓ} (g : B → StreamElement B)
    → ((y : B) → IsGoing (g y))
    → (ys : List B) → All IsGoing (map g ys)
items-IsGoing g h [] = tt
items-IsGoing g h (y ∷ ys) = (h y, items-IsGoing g h ys)

module _ {ℓ} {A B : Type ℓ} (f : A → List B) where
  -- An item of the inner iterator, with the timestamp of the element that it came from.
  abbrev pub stamp : Option Timestamp → B → StreamElement B
  stamp none x = item x
  stamp (some ts) x = timestamped x ts

  -- `inner.next()` on the inner iterator, and the iterator after it.
  abbrev pub front : FlatMap B → Option (StreamElement B × FlatMap B)
  front s = elim s.frontiter [
    | none ↦ none
    | some inner ↦ elim inner [
      | [] ↦ none
      | x ∷ inner' ↦ some (stamp s.timestamp x, record s { frontiter = some inner' })
    ]
  ]

  abbrev pub drop_front : FlatMap B → FlatMap B
  drop_front s = record s { frontiter = none }

  -- One round of the loop on an element `e` of the previous operator, with the inner iterator done:
  -- the element is returned as it is, or the iterator is replaced.
  abbrev pub refill : StreamElement A → FlatMap B → FlatMap B
  refill (item inner) s = record { frontiter = some (f inner); timestamp = none }
  refill (timestamped inner ts) s = record { frontiter = some (f inner); timestamp = some ts }
  refill _ s = s

  abbrev pub passed : StreamElement A → Option (StreamElement B)
  passed (item inner) = none
  passed (timestamped inner ts) = none
  passed (watermark ts) = some (watermark ts)
  passed flush_batch = some flush_batch
  passed terminate = some terminate
  passed flush_and_restart = some flush_and_restart

  unfoldable pub flat_map_next : FlatMap B × Upstream A → StreamElement B × (FlatMap B × Upstream A)
  flat_map_next (s, []) = elim (front s) [
    | some (b, s') ↦ (b, (s', []))
    | none ↦ (terminate, (drop_front s, []))
  ]
  flat_map_next (s, e ∷ prev) =
      let more = flat_map_next (refill e (drop_front s), prev) in
      elim (front s) [
        | some (b, s') ↦ (b, (s', e ∷ prev))
        | none ↦ elim (passed e) [ some b ↦ (b, (drop_front s, prev)) | none ↦ more ]
      ]

  -- What an element becomes: the items of the function's result, with the element's timestamp.
  abbrev pub expand : StreamElement A → List (StreamElement B)
  expand (item x) = map item (f x)
  expand (timestamped x ts) = map (λ y. timestamped y ts) (f x)
  expand (watermark ts) = watermark ts ∷ []
  expand flush_batch = flush_batch ∷ []
  expand terminate = terminate ∷ []
  expand flush_and_restart = flush_and_restart ∷ []

  abbrev pub expanded : List (StreamElement A) → List (StreamElement B)
  expanded [] = []
  expanded (e ∷ xs) = expand e ++ expanded xs

  abbrev pub Idle : FlatMap B → Type ℓ
  Idle s = front s ≡ none

  inner-Emits :
      (ts : Option Timestamp) (ys : List B) (prev : Upstream A)
      → Emits flat_map_next
          (record { frontiter = some ys; timestamp = ts }, prev)
          (map (stamp ts) ys)
          (record { frontiter = some []; timestamp = ts }, prev)
  unfolding flat_map_next
  inner-Emits ts [] prev = refl
  inner-Emits ts (y ∷ ys) [] = (refl, inner-Emits ts ys [])
  inner-Emits ts (y ∷ ys) (e ∷ prev) = (refl, inner-Emits ts ys (e ∷ prev))

  flat_map-refill :
      (s : FlatMap B) (e : StreamElement A) (prev : Upstream A)
      → Idle s
      → passed e ≡ none
      → flat_map_next (s, e ∷ prev) ≡ flat_map_next (refill e (drop_front s), prev)
  unfolding flat_map_next
  flat_map-refill s e prev idle p = rw (idle, p, flat_map_next)

  flat_map-pass :
      (s : FlatMap B) (e : StreamElement A) (b : StreamElement B) (prev : Upstream A)
      → Idle s
      → passed e ≡ some b
      → flat_map_next (s, e ∷ prev) ≡ (b, (drop_front s, prev))
  unfolding flat_map_next
  flat_map-pass s e b prev idle p = rw (idle, p, flat_map_next)

  abbrev Iterates : FlatMap B → List (StreamElement A) → Upstream A → Type ℓ
  Iterates s xs rest =
      (t : FlatMap B) × Idle t
      × Emits flat_map_next (s, xs ++ flush_and_restart ∷ rest)
          (expanded xs ++ flush_and_restart ∷ []) (t, rest)

  -- A round that replaces the inner iterator, and the items of the new one.
  iterate_inner :
      (s : FlatMap B) (e : StreamElement A) (ts : Option Timestamp) (ys : List B)
      (xs : List (StreamElement A)) (rest : Upstream A)
      → Idle s
      → passed e ≡ none
      → refill e (drop_front s) ≡ record { frontiter = some ys; timestamp = ts }
      → expand e ≡ map (stamp ts) ys
      → Iterates (record { frontiter = some []; timestamp = ts }) xs rest
      → Iterates s (e ∷ xs) rest
  iterate_inner s e ts ys xs rest idle p r x (t, idle', em) =
      let up = xs ++ flush_and_restart ∷ rest in
      let spent : FlatMap B = record { frontiter = some []; timestamp = ts } in
      (
        t,
        idle',
        Emits-absorb flat_map_next (s, e ∷ up) (refill e (drop_front s), up) (t, rest)
            flush_and_restart (expanded (e ∷ xs)) (flat_map-refill s e up idle p)
            (rw (r, x, append_assoc)
              (Emits-append flat_map_next _ (spent, up) (t, rest) (map (stamp ts) ys)
                (expanded xs ++ flush_and_restart ∷ []) (inner-Emits ts ys up) em)),
      )

  iterate_pass :
      (s : FlatMap B) (e : StreamElement A) (b : StreamElement B) (xs : List (StreamElement A))
      (rest : Upstream A)
      → Idle s
      → passed e ≡ some b
      → expand e ≡ b ∷ []
      → Iterates (drop_front s) xs rest
      → Iterates s (e ∷ xs) rest
  iterate_pass s e b xs rest idle p x (t, idle', em) =
      let up = xs ++ flush_and_restart ∷ rest in
      (
        t,
        idle',
        rw x (
            Emits-emit flat_map_next (s, e ∷ up) (drop_front s, up) (t, rest) b
              (expanded xs ++ flush_and_restart ∷ []) (flat_map-pass s e b up idle p) em),
      )

  flat_map_iteration :
      (s : FlatMap B) (xs : List (StreamElement A)) (rest : Upstream A)
      → Idle s
      → All IsData xs
      → Iterates s xs rest
  flat_map_iteration s [] rest idle d = (
    drop_front s,
    refl,
    Emits-emit flat_map_next (s, flush_and_restart ∷ rest) (drop_front s, rest) _ flush_and_restart
        [] (flat_map-pass s flush_and_restart flush_and_restart rest idle refl) refl,
  )
  flat_map_iteration s (item x ∷ xs) rest idle d =
      iterate_inner s (item x) none (f x) xs rest idle refl refl refl
        (flat_map_iteration _ xs rest refl d.1)
  flat_map_iteration s (timestamped x ts ∷ xs) rest idle d =
      iterate_inner s (timestamped x ts) (some ts) (f x) xs rest idle refl refl refl
        (flat_map_iteration _ xs rest refl d.1)
  flat_map_iteration s (watermark ts ∷ xs) rest idle d =
      iterate_pass s (watermark ts) (watermark ts) xs rest idle refl refl
        (flat_map_iteration (drop_front s) xs rest refl d.1)
  flat_map_iteration s (flush_batch ∷ xs) rest idle d =
      iterate_pass s flush_batch flush_batch xs rest idle refl refl
        (flat_map_iteration (drop_front s) xs rest refl d.1)
  flat_map_iteration s (terminate ∷ xs) rest idle d = absurd d.0
  flat_map_iteration s (flush_and_restart ∷ xs) rest idle d = absurd d.0

  expand-IsGoing : (e : StreamElement A) → IsData e → All IsGoing (expand e)
  expand-IsGoing (item x) d = items-IsGoing item (λ y. tt) (f x)
  expand-IsGoing (timestamped x ts) d = items-IsGoing (λ y. timestamped y ts) (λ y. tt) (f x)
  expand-IsGoing terminate d = absurd d
  expand-IsGoing _ d = (tt, tt)

  expanded-IsGoing : (xs : List (StreamElement A)) → All IsData xs → All IsGoing (expanded xs)
  expanded-IsGoing [] d = tt
  expanded-IsGoing (e ∷ xs) d =
      All-append IsGoing (expand e) (expanded xs) (expand-IsGoing e d.0) (expanded-IsGoing xs d.1)

  -- `FlatMap` turns each iteration into the concatenation, in order, of the items of its results,
  -- each with the timestamp of the element that it came from; the rest of an inner iterator is
  -- returned before the previous operator is asked again.
  pub flat_map-Transforms : Transforms flat_map_next Idle expanded
  unfolding flat_map_next
  flat_map-Transforms = record {
    iteration = flat_map_iteration;
    ending = λ s idle. rw (idle, flat_map_next);
    data_only = expanded-IsGoing;
  }

  -- A worker over a new `FlatMap` ends, given fuel for each element, when the stream consists of
  -- iterations of data; it passes on the items of the function's results in order, each with the
  -- timestamp of the element that it came from, and every other element in its place.
  pub do_work-flat_map :
      (fuel : ℕ) (its : List (List (StreamElement A)))
      → All (All IsData) its
      → length (stream (map expanded its)) < fuel
      → do_work flat_map_next fuel (record { frontiter = none; timestamp = none }, stream its)
        ≡ some (stream (map expanded its))
  do_work-flat_map fuel its d h = do_work-Transforms flat_map-Transforms fuel _ its refl d h

-- `Flatten`, whose items are iterators themselves.
unfoldable pub flatten_next {ℓ} :
    {B : Type ℓ} → FlatMap B × Upstream (List B) → StreamElement B × (FlatMap B × Upstream (List B))
unfolding flat_map_next
flatten_next s = flat_map_next (λ inner. inner) s
