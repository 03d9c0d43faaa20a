-- ===== src/Operator/Zip/Iteration.antt =====
-- `Zip` over the iterations of two streams.
use renoir.Prelude.{
  arith, ℕ, ◌≡◌, refl, Bool, true, false, Option, none, some, List, [], ◌∷◌, ◌++◌, All, All-append,
  max,
}
use renoir.Stream.{
  StreamElement, item, timestamped, watermark, flush_batch, terminate, flush_and_restart,
}
use renoir.Stream.Run.{Upstream}
use renoir.Stream.Fallible.{Call, Yields, Yields-absorb}
use renoir.Join.{BinaryElement, left, right, left_end, right_end}
use renoir.Operator.Zip.{Zip, new, combine, zip_step, zip_next, pop_pair}

module _ {ℓ} {A : Type ℓ} where
  -- An item, with a timestamp or without.
  abbrev pub IsKind : Bool → StreamElement A → Type 0
  IsKind true (timestamped x ts) = Unit
  IsKind false (item x) = Unit
  IsKind _ _ = ⊥

  abbrev pub pair_list : Option (StreamElement A) → List (StreamElement A)
  pair_list none = []
  pair_list (some e) = e ∷ []

  timed_item : (e : StreamElement A) → IsKind true e → (x : A) × (ts : ℕ) × (e ≡ timestamped x ts)
  timed_item (timestamped x ts) h = (x, ts, refl)
  timed_item (item x) h = absurd h
  timed_item (watermark w) h = absurd h
  timed_item flush_batch h = absurd h
  timed_item terminate h = absurd h
  timed_item flush_and_restart h = absurd h

  plain_item : (e : StreamElement A) → IsKind false e → (x : A) × (e ≡ item x)
  plain_item (item x) h = (x, refl)
  plain_item (timestamped x ts) h = absurd h
  plain_item (watermark w) h = absurd h
  plain_item flush_batch h = absurd h
  plain_item terminate h = absurd h
  plain_item flush_and_restart h = absurd h

module _ {ℓ} {Out1 Out2 : Type ℓ} where
  -- All items of an iteration have timestamps, or none has.
  abbrev pub IsUniform : Bool → List (StreamElement (BinaryElement Out1 Out2)) → Type 0
  IsUniform timed [] = Unit
  IsUniform timed (item left_end ∷ es) = IsUniform timed es
  IsUniform timed (item right_end ∷ es) = IsUniform timed es
  IsUniform timed (watermark w ∷ es) = IsUniform timed es
  IsUniform timed (flush_batch ∷ es) = IsUniform timed es
  IsUniform timed (timestamped left_end ts ∷ es) = ⊥
  IsUniform timed (timestamped right_end ts ∷ es) = ⊥
  IsUniform timed (terminate ∷ es) = ⊥
  IsUniform timed (flush_and_restart ∷ es) = ⊥
  IsUniform true (timestamped (left x) ts ∷ es) = IsUniform true es
  IsUniform true (timestamped (right y) ts ∷ es) = IsUniform true es
  IsUniform false (item (left x) ∷ es) = IsUniform false es
  IsUniform false (item (right y) ∷ es) = IsUniform false es
  IsUniform _ _ = ⊥

  -- An item from a side, where `zipped` is what follows.
  abbrev pub add_left :
      StreamElement Out1
      → List (StreamElement Out1)
      → List (StreamElement Out2)
      → (List (StreamElement Out1) → List (StreamElement Out2) → List (StreamElement (Out1 × Out2)))
      → List (StreamElement (Out1 × Out2))
  add_left x xs [] zipped = zipped (xs ++ x ∷ []) []
  add_left x xs (y ∷ ys) zipped = pair_list (combine x y) ++ zipped [] ys

  abbrev pub add_right :
      StreamElement Out2
      → List (StreamElement Out1)
      → List (StreamElement Out2)
      → (List (StreamElement Out1) → List (StreamElement Out2) → List (StreamElement (Out1 × Out2)))
      → List (StreamElement (Out1 × Out2))
  add_right y [] ys zipped = zipped [] (ys ++ y ∷ [])
  add_right y (x ∷ xs) ys zipped = pair_list (combine x y) ++ zipped xs []

  -- What is returned with these stashes, of which one is empty.
  abbrev pub zipped :
      List (StreamElement Out1)
      → List (StreamElement Out2)
      → List (StreamElement (BinaryElement Out1 Out2))
      → List (StreamElement (Out1 × Out2))
  zipped xs ys [] = []
  zipped xs ys (item (left x) ∷ es) = add_left (item x) xs ys (λ a b. zipped a b es)
  zipped xs ys (timestamped (left x) ts ∷ es) =
      add_left (timestamped x ts) xs ys (λ a b. zipped a b es)
  zipped xs ys (item (right y) ∷ es) = add_right (item y) xs ys (λ a b. zipped a b es)
  zipped xs ys (timestamped (right y) ts ∷ es) =
      add_right (timestamped y ts) xs ys (λ a b. zipped a b es)
  zipped xs ys (watermark w ∷ es) = watermark w ∷ zipped xs ys es
  zipped xs ys (flush_batch ∷ es) = flush_batch ∷ zipped xs ys es
  zipped xs ys (_ ∷ es) = zipped xs ys es

  abbrev pub OneEmpty : List (StreamElement Out1) → List (StreamElement Out2) → Type 0
  OneEmpty [] ys = Unit
  OneEmpty (x ∷ xs) [] = Unit
  OneEmpty (x ∷ xs) (y ∷ ys) = ⊥

  abbrev pub stashes : List (StreamElement Out1) → List (StreamElement Out2) → Zip Out1 Out2
  stashes xs ys = record { stash1 = xs; stash2 = ys }

  pub combine-some :
      (timed : Bool) (x : StreamElement Out1) (y : StreamElement Out2)
      → IsKind timed x
      → IsKind timed y
      → (e : StreamElement (Out1 × Out2)) × (combine x y ≡ some e) × IsKind timed e
  combine-some true x y h k =
      let (a, ts1, p) = timed_item x h in
      let (b, ts2, q) = timed_item y k in rw (p, q) (timestamped (a, b) (max ts1 ts2), refl, tt)
  combine-some false x y h k =
      let (a, p) = plain_item x h in
      let (b, q) = plain_item y k in rw (p, q) (item (a, b), refl, tt)

  pub any_nil :
      (xs : List (StreamElement Out1)) (ys : List (StreamElement Out2)) → ys ≡ [] → OneEmpty xs ys
  any_nil [] ys p = tt
  any_nil (x ∷ xs) [] p = tt
  any_nil (x ∷ xs) (y ∷ ys) p = absurd (ground arith)

  -- `Zip` reads on while one stash is empty.
  reads-on :
      (xs : List (StreamElement Out1)) (ys : List (StreamElement Out2))
      (prev : Upstream (BinaryElement Out1 Out2))
      (loop : Call (Out1 × Out2) (Zip Out1 Out2 × Upstream (BinaryElement Out1 Out2)))
      → OneEmpty xs ys
      → pop_pair xs ys prev loop ≡ loop
  reads-on [] ys prev loop h = refl
  reads-on (x ∷ xs) [] prev loop h = refl
  reads-on (x ∷ xs) (y ∷ ys) prev loop h = absurd h

  abbrev Zips :
      Zip Out1 Out2
      → Upstream (BinaryElement Out1 Out2)
      → List (StreamElement (Out1 × Out2))
      → Upstream (BinaryElement Out1 Out2)
      → Type ℓ
  Zips s prev out rest = Yields zip_next (s, prev) (out ++ flush_and_restart ∷ []) (new, rest)

  -- Two full stashes give their pair.
  pair-step :
      (x : StreamElement Out1) (y : StreamElement Out2) (e : StreamElement (Out1 × Out2))
      (xs : List (StreamElement Out1)) (ys : List (StreamElement Out2))
      (prev : Upstream (BinaryElement Out1 Out2))
      → combine x y ≡ some e
      → zip_next (stashes (x ∷ xs) (y ∷ ys), prev) ≡ some (e, (stashes xs ys, prev))
  unfolding zip_step
  pair-step x y e xs ys [] p = rw p refl
  pair-step x y e xs ys (item (left z) ∷ prev) p = rw p refl
  pair-step x y e xs ys (item (right z) ∷ prev) p = rw p refl
  pair-step x y e xs ys (item left_end ∷ prev) p = rw p refl
  pair-step x y e xs ys (item right_end ∷ prev) p = rw p refl
  pair-step x y e xs ys (timestamped (left z) ts ∷ prev) p = rw p refl
  pair-step x y e xs ys (timestamped (right z) ts ∷ prev) p = rw p refl
  pair-step x y e xs ys (timestamped left_end ts ∷ prev) p = rw p refl
  pair-step x y e xs ys (timestamped right_end ts ∷ prev) p = rw p refl
  pair-step x y e xs ys (watermark w ∷ prev) p = rw p refl
  pair-step x y e xs ys (flush_batch ∷ prev) p = rw p refl
  pair-step x y e xs ys (terminate ∷ prev) p = rw p refl
  pair-step x y e xs ys (flush_and_restart ∷ prev) p = rw p refl

  -- After an item from the left that was read.
  left-Zips :
      (timed : Bool) (x : StreamElement Out1) (xs : List (StreamElement Out1))
      (ys : List (StreamElement Out2)) (prev rest : Upstream (BinaryElement Out1 Out2))
      (zipped : List (StreamElement Out1)
        → List (StreamElement Out2)
        → List (StreamElement (Out1 × Out2)))
      → OneEmpty xs ys
      → IsKind timed x
      → All (IsKind timed) xs
      → All (IsKind timed) ys
      → ((us : List (StreamElement Out1)) (vs : List (StreamElement Out2))
          → OneEmpty us vs
          → All (IsKind timed) us
          → All (IsKind timed) vs
          → Zips (stashes us vs) prev (zipped us vs) rest)
      → Zips (stashes (xs ++ x ∷ []) ys) prev (add_left x xs ys zipped) rest
  left-Zips timed x xs [] prev rest zipped o k ks ls f =
      f (xs ++ x ∷ []) [] (any_nil (xs ++ x ∷ []) [] refl)
        (All-append (IsKind timed) xs (x ∷ []) ks (k, tt)) tt
  left-Zips timed x [] (y ∷ ys) prev rest zipped o k ks ls f =
      let (e, p, ke) = combine-some timed x y k ls.0 in
      rw p ((stashes [] ys, prev), pair-step x y e [] ys prev p, f [] ys tt tt ls.1)
  left-Zips timed x (z ∷ xs) (y ∷ ys) prev rest zipped o k ks ls f = absurd o

  right-Zips :
      (timed : Bool) (y : StreamElement Out2) (xs : List (StreamElement Out1))
      (ys : List (StreamElement Out2)) (prev rest : Upstream (BinaryElement Out1 Out2))
      (zipped : List (StreamElement Out1)
        → List (StreamElement Out2)
        → List (StreamElement (Out1 × Out2)))
      → OneEmpty xs ys
      → IsKind timed y
      → All (IsKind timed) xs
      → All (IsKind timed) ys
      → ((us : List (StreamElement Out1)) (vs : List (StreamElement Out2))
          → OneEmpty us vs
          → All (IsKind timed) us
          → All (IsKind timed) vs
          → Zips (stashes us vs) prev (zipped us vs) rest)
      → Zips (stashes xs (ys ++ y ∷ [])) prev (add_right y xs ys zipped) rest
  right-Zips timed y [] ys prev rest zipped o k ks ls f =
      f [] (ys ++ y ∷ []) tt tt (All-append (IsKind timed) ys (y ∷ []) ls (k, tt))
  right-Zips timed y (x ∷ xs) [] prev rest zipped o k ks ls f =
      let (e, p, ke) = combine-some timed x y ks.0 k in
      rw p
        ((stashes xs [], prev), pair-step x y e xs [] prev p, f xs [] (any_nil xs [] refl) ks.1 tt)
  right-Zips timed y (x ∷ xs) (z ∷ ys) prev rest zipped o k ks ls f = absurd o

  absorbed :
      (s s' : Zip Out1 Out2) (e : StreamElement (BinaryElement Out1 Out2))
      (prev rest : Upstream (BinaryElement Out1 Out2)) (out : List (StreamElement (Out1 × Out2)))
      → zip_next (s, e ∷ prev) ≡ zip_next (s', prev)
      → Zips s' prev out rest
      → Zips s (e ∷ prev) out rest
  absorbed s s' e prev rest out p z =
      Yields-absorb zip_next (s, e ∷ prev) (s', prev) (new, rest) flush_and_restart out p z

  pub zip-iteration :
      (timed : Bool) (es : List (StreamElement (BinaryElement Out1 Out2)))
      (xs : List (StreamElement Out1)) (ys : List (StreamElement Out2))
      (rest : Upstream (BinaryElement Out1 Out2))
      → OneEmpty xs ys
      → All (IsKind timed) xs
      → All (IsKind timed) ys
      → IsUniform timed es
      → Zips (stashes xs ys) (es ++ flush_and_restart ∷ rest) (zipped xs ys es) rest
  unfolding zip_step
  zip-iteration timed [] xs ys rest o ks ls u = ((new, rest), reads-on xs ys _ _ o, refl)
  zip-iteration timed (item left_end ∷ es) xs ys rest o ks ls u =
      absorbed _ _ (item left_end) _ rest _ (reads-on xs ys _ _ o)
        (zip-iteration timed es xs ys rest o ks ls u)
  zip-iteration timed (item right_end ∷ es) xs ys rest o ks ls u =
      absorbed _ _ (item right_end) _ rest _ (reads-on xs ys _ _ o)
        (zip-iteration timed es xs ys rest o ks ls u)
  zip-iteration timed (watermark w ∷ es) xs ys rest o ks ls u = (
    (stashes xs ys, es ++ flush_and_restart ∷ rest),
    reads-on xs ys _ _ o,
    zip-iteration timed es xs ys rest o ks ls u,
  )
  zip-iteration timed (flush_batch ∷ es) xs ys rest o ks ls u = (
    (stashes xs ys, es ++ flush_and_restart ∷ rest),
    reads-on xs ys _ _ o,
    zip-iteration timed es xs ys rest o ks ls u,
  )
  zip-iteration true (timestamped (left x) ts ∷ es) xs ys rest o ks ls u =
      absorbed _ _ (timestamped (left x) ts) _ rest _ (reads-on xs ys _ _ o) (
        left-Zips true (timestamped x ts) xs ys _ rest _ o tt ks ls
          (λ us vs o' k l. zip-iteration true es us vs rest o' k l u))
  zip-iteration true (timestamped (right y) ts ∷ es) xs ys rest o ks ls u =
      absorbed _ _ (timestamped (right y) ts) _ rest _ (reads-on xs ys _ _ o) (
        right-Zips true (timestamped y ts) xs ys _ rest _ o tt ks ls
          (λ us vs o' k l. zip-iteration true es us vs rest o' k l u))
  zip-iteration false (item (left x) ∷ es) xs ys rest o ks ls u =
      absorbed _ _ (item (left x)) _ rest _ (reads-on xs ys _ _ o) (
        left-Zips false (item x) xs ys _ rest _ o tt ks ls
          (λ us vs o' k l. zip-iteration false es us vs rest o' k l u))
  zip-iteration false (item (right y) ∷ es) xs ys rest o ks ls u =
      absorbed _ _ (item (right y)) _ rest _ (reads-on xs ys _ _ o) (
        right-Zips false (item y) xs ys _ rest _ o tt ks ls
          (λ us vs o' k l. zip-iteration false es us vs rest o' k l u))
  zip-iteration false (timestamped (left x) ts ∷ es) xs ys rest o ks ls u = absurd u
  zip-iteration false (timestamped (right y) ts ∷ es) xs ys rest o ks ls u = absurd u
  zip-iteration true (item (left x) ∷ es) xs ys rest o ks ls u = absurd u
  zip-iteration true (item (right y) ∷ es) xs ys rest o ks ls u = absurd u
  zip-iteration timed (timestamped left_end ts ∷ es) xs ys rest o ks ls u = absurd u
  zip-iteration timed (timestamped right_end ts ∷ es) xs ys rest o ks ls u = absurd u
  zip-iteration timed (terminate ∷ es) xs ys rest o ks ls u = absurd u
  zip-iteration timed (flush_and_restart ∷ es) xs ys rest o ks ls u = absurd u
