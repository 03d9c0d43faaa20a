-- ===== src/Stream/Run.antt =====
-- What an operator reads from the one before it (src/test.rs), and the loop of a worker that calls
-- it until the stream ends (src/worker.rs).
use mathlib.Core.Option
use mathlib.Core.Path.{subst}
use renoir.Prelude.{
  ℕ, zero, suc, ◌<◌, ◌≡◌, refl, sym, Option, none, some, List, [], ◌∷◌, ◌++◌, map, append_assoc,
  arith, length, All, All-append,
}
use renoir.Stream.{StreamElement, terminate, flush_and_restart}

-- The elements that the previous operator still returns, in order, before its `Terminate`s.
abbrev pub Upstream {ℓ} : Type ℓ → Type ℓ
Upstream A = List (StreamElement A)

-- `FakeOperator::next`: a previous operator that has no more elements has terminated.
abbrev pub pull {ℓ} : {A : Type ℓ} → Upstream A → StreamElement A × Upstream A
pull [] = (terminate, [])
pull (e ∷ up) = (e, up)

-- An element inside an iteration.
abbrev pub IsData {ℓ} : {A : Type ℓ} → StreamElement A → Type 0
IsData terminate = ⊥
IsData flush_and_restart = ⊥
IsData _ = Unit

-- An element after which the worker goes on.
abbrev pub IsGoing {ℓ} : {A : Type ℓ} → StreamElement A → Type 0
IsGoing terminate = ⊥
IsGoing _ = Unit

pub IsData-IsGoing {ℓ} : {A : Type ℓ} (e : StreamElement A) → IsData e → IsGoing e
IsData-IsGoing terminate d = d
IsData-IsGoing _ d = tt

module _ {ℓ} {B S : Type ℓ} (next : S → StreamElement B × S) where
  -- The calls of `next` from the state `s` return `es` in turn and leave the state `t`.
  abbrev pub Emits : S → List (StreamElement B) → S → Type ℓ
  Emits s [] t = s ≡ t
  Emits s (e ∷ es) t = ((next s).0 ≡ e) × Emits (next s).1 es t

  -- The loop of `do_work`, with the elements that it threw away; `none` if the fuel runs out.
  unfoldable pub do_work : ℕ → S → Option (List (StreamElement B))
  do_work zero s = none
  do_work (suc fuel) s =
      let rest = do_work fuel (next s).1 in
      elim (next s).0 [ terminate ↦ some [] | e ↦ Option.map (λ es. e ∷ es) rest ]

  pub Emits-append :
      (s t u : S) (xs ys : List (StreamElement B))
      → Emits s xs t
      → Emits t ys u
      → Emits s (xs ++ ys) u
  Emits-append s t u [] ys p q = subst (λ z. Emits z ys u) (sym p) q
  Emits-append s t u (x ∷ xs) ys p q = (p.0, Emits-append (next s).1 t u xs ys p.1 q)

  -- Two states from which the next call does the same.
  pub Emits-absorb :
      (s s' t : S) (e : StreamElement B) (es : List (StreamElement B))
      → next s ≡ next s'
      → Emits s' (es ++ e ∷ []) t
      → Emits s (es ++ e ∷ []) t
  Emits-absorb s s' t e [] p q = rw p q
  Emits-absorb s s' t e (x ∷ es) p q = rw p q

  pub Emits-emit :
      (s s' t : S) (e : StreamElement B) (es : List (StreamElement B))
      → next s ≡ (e, s')
      → Emits s' es t
      → Emits s (e ∷ es) t
  Emits-emit s s' t e es p q = rw p (refl, q)

  pub do_work-Emits :
      (fuel : ℕ) (s t : S) (es : List (StreamElement B))
      → length es < fuel
      → All IsGoing es
      → Emits s (es ++ terminate ∷ []) t
      → do_work fuel s ≡ some es
  unfolding do_work
  do_work-Emits zero s t es h g em = absurd (omega arith)
  do_work-Emits (suc fuel) s t [] h g em = ground (arith, em.0)
  do_work-Emits (suc fuel) s t (e ∷ es) h g em =
      ground (arith, em.0, do_work-Emits fuel (next s).1 t es (omega arith) g.1 em.1)

module _ {ℓ} {A : Type ℓ} where
  -- A well-formed stream: iterations, each ended by a `FlushAndRestart`.
  abbrev pub stream : List (List (StreamElement A)) → Upstream A
  stream [] = []
  stream (xs ∷ its) = xs ++ flush_and_restart ∷ stream its

pub regroup {ℓ} :
    {A : Type ℓ} (xs : List A) (a : A) (ys zs : List A)
    → ((xs ++ a ∷ ys) ++ zs) ≡ ((xs ++ a ∷ []) ++ (ys ++ zs))
regroup xs a ys zs = simp append_assoc

-- From any idle state `next` turns each iteration into the one that `spec` gives and is idle again,
-- and it terminates when the previous operator does.
pub record Transforms {ℓ} {A B S : Type ℓ}
    (next : S × Upstream A → StreamElement B × (S × Upstream A)) (Idle : S → Type ℓ)
    (spec : List (StreamElement A) → List (StreamElement B)) : Type ℓ where
  pub iteration :
      (s : S) (xs : List (StreamElement A)) (rest : Upstream A)
      → Idle s
      → All IsData xs
      → (t : S) × Idle t
        × Emits next
            (s, xs ++ flush_and_restart ∷ rest)
            (spec xs ++ flush_and_restart ∷ [])
            (t, rest)
  pub ending : (s : S) → Idle s → (next (s, [])).0 ≡ terminate
  pub data_only : (xs : List (StreamElement A)) → All IsData xs → All IsGoing (spec xs)

module _ {ℓ} {A B S : Type ℓ} {next : S × Upstream A → StreamElement B × (S × Upstream A)}
    {Idle : S → Type ℓ} {spec : List (StreamElement A) → List (StreamElement B)}
    (tr : Transforms next Idle spec) where
  Emits-stream :
      (s : S) (its : List (List (StreamElement A)))
      → Idle s
      → All (All IsData) its
      → (t : S × Upstream A) × Emits next
          (s, stream its)
          (stream (map spec its) ++ terminate ∷ [])
          t
  Emits-stream s [] idle d = ((next (s, [])).1, (tr.ending s idle, refl))
  Emits-stream s (xs ∷ its) idle d =
      let (t, idle', first) = tr.iteration s xs (stream its) idle d.0 in
      let (u, rest) = Emits-stream t its idle' d.1 in
      (
        u,
        rw (regroup (spec xs) flush_and_restart (stream (map spec its)) (terminate ∷ [])) (
            Emits-append next (s, stream (xs ∷ its)) (t, stream its) u
              (spec xs ++ flush_and_restart ∷ []) (stream (map spec its) ++ terminate ∷ []) first
              rest),
      )

  stream-IsGoing :
      (its : List (List (StreamElement A)))
      → All (All IsData) its
      → All IsGoing (stream (map spec its))
  stream-IsGoing [] d = tt
  stream-IsGoing (xs ∷ its) d =
      All-append IsGoing (spec xs) _ (tr.data_only xs d.0) (tt, stream-IsGoing its d.1)

  -- The worker's loop over an operator that transforms iterations ends, given fuel for each element,
  -- and has passed on the transformed iterations in order.
  pub do_work-Transforms :
      (fuel : ℕ) (s : S) (its : List (List (StreamElement A)))
      → Idle s
      → All (All IsData) its
      → length (stream (map spec its)) < fuel
      → do_work next fuel (s, stream its) ≡ some (stream (map spec its))
  do_work-Transforms fuel s its idle d h =
      let (t, em) = Emits-stream s its idle d in
      do_work-Emits next fuel (s, stream its) t (stream (map spec its)) h (stream-IsGoing its d) em
