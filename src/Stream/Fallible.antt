-- ===== src/Stream/Fallible.antt =====
-- The loop of a worker (src/worker.rs) over an operator whose `next` may panic.
use mathlib.Core.Option
use mathlib.Core.Path.{subst}
use renoir.Prelude.{
  ℕ, zero, suc, ◌<◌, ◌≡◌, refl, ap, ◌∙◌, sym, Option, none, some, List, [], ◌∷◌, ◌++◌, map, arith,
  length, All, All-append,
}
use renoir.Stream.{StreamElement, terminate, flush_and_restart}
use renoir.Stream.Run.{Upstream, IsGoing, stream, regroup}

-- What a call comes to: `none` is a panic.
abbrev pub Call {ℓ} : Type ℓ → Type ℓ → Type ℓ
Call B S = Option (StreamElement B × S)

module _ {ℓ} {B S : Type ℓ} (next : S → Call B S) where
  -- The calls from the state `s` return `es` in turn and leave the state `t`.
  abbrev pub Yields : S → List (StreamElement B) → S → Type ℓ
  Yields s [] t = s ≡ t
  Yields s (e ∷ es) t = (u : S) × (next s ≡ some (e, u)) × Yields u es t

  abbrev pub after_call :
      Call B S → (S → Option (List (StreamElement B))) → Option (List (StreamElement B))
  after_call none k = none
  after_call (some (terminate, s)) k = some []
  after_call (some (e, s)) k = Option.map (λ es. e ∷ es) (k s)

  -- The elements that the worker throws away; `none` if a call panics or the fuel runs out.
  unfoldable pub work : ℕ → S → Option (List (StreamElement B))
  work zero s = none
  work (suc fuel) s = after_call (next s) (λ s'. work fuel s')

  pub Yields-append :
      (s t u : S) (xs ys : List (StreamElement B))
      → Yields s xs t
      → Yields t ys u
      → Yields s (xs ++ ys) u
  Yields-append s t u [] ys p q = subst (λ z. Yields z ys u) (sym p) q
  Yields-append s t u (x ∷ xs) ys (v, p, r) q = (v, p, Yields-append v t u xs ys r q)

  -- Two states from which the next call does the same.
  pub Yields-absorb :
      (s s' t : S) (e : StreamElement B) (es : List (StreamElement B))
      → next s ≡ next s'
      → Yields s' (es ++ e ∷ []) t
      → Yields s (es ++ e ∷ []) t
  Yields-absorb s s' t e [] p (u, q, r) = (u, p ∙ q, r)
  Yields-absorb s s' t e (x ∷ es) p (u, q, r) = (u, p ∙ q, r)

  after_call-IsGoing :
      (e : StreamElement B) (s : S) (es : List (StreamElement B))
      (k : S → Option (List (StreamElement B)))
      → IsGoing e
      → k s ≡ some es
      → after_call (some (e, s)) k ≡ some (e ∷ es)
  after_call-IsGoing terminate s es k g h = absurd g
  after_call-IsGoing e s es k g h = ap (Option.map (λ es. e ∷ es)) h

  pub work-Yields :
      (fuel : ℕ) (s t : S) (es : List (StreamElement B))
      → length es < fuel
      → All IsGoing es
      → Yields s (es ++ terminate ∷ []) t
      → work fuel s ≡ some es
  unfolding work
  work-Yields zero s t es h g y = absurd (omega arith)
  work-Yields (suc fuel) s t [] h g (u, q, r) = ap (λ c. after_call c (λ s'. work fuel s')) q
  work-Yields (suc fuel) s t (e ∷ es) h g (u, q, r) =
      ap (λ c. after_call c (λ s'. work fuel s')) q
      ∙ after_call-IsGoing e u es _ g.0 (work-Yields fuel u t es (omega arith) g.1 r)

-- From any idle state the operator turns each valid iteration into the one that `spec` gives, never
-- panics, and is idle again; it terminates when the previous operator does.
pub record Reworks {ℓ} {A B S : Type ℓ} (next : S × Upstream A → Call B (S × Upstream A))
    (Idle : S → Type ℓ) (Valid : List (StreamElement A) → Type 0)
    (spec : List (StreamElement A) → List (StreamElement B)) : Type ℓ where
  pub iteration :
      (s : S) (xs : List (StreamElement A)) (rest : Upstream A)
      → Idle s
      → Valid xs
      → (t : S) × Idle t
        × Yields next
            (s, xs ++ flush_and_restart ∷ rest)
            (spec xs ++ flush_and_restart ∷ [])
            (t, rest)
  pub ending : (s : S) → Idle s → (t : S × Upstream A) × (next (s, []) ≡ some (terminate, t))
  pub data_only : (xs : List (StreamElement A)) → Valid xs → All IsGoing (spec xs)

module _ {ℓ} {A B S : Type ℓ} {next : S × Upstream A → Call B (S × Upstream A)} {Idle : S → Type ℓ}
    {Valid : List (StreamElement A) → Type 0}
    {spec : List (StreamElement A) → List (StreamElement B)}
    (tr : Reworks next Idle Valid spec) where
  Yields-stream :
      (s : S) (its : List (List (StreamElement A)))
      → Idle s
      → All Valid its
      → (t : S × Upstream A) × Yields next
          (s, stream its)
          (stream (map spec its) ++ terminate ∷ [])
          t
  Yields-stream s [] idle d = let (t, e) = tr.ending s idle in (t, (t, e, refl))
  Yields-stream s (xs ∷ its) idle d =
      let (t, idle', first) = tr.iteration s xs (stream its) idle d.0 in
      let (u, rest) = Yields-stream t its idle' d.1 in
      (
        u,
        rw (regroup (spec xs) flush_and_restart (stream (map spec its)) (terminate ∷ [])) (
            Yields-append next (s, stream (xs ∷ its)) (t, stream its) u
              (spec xs ++ flush_and_restart ∷ []) (stream (map spec its) ++ terminate ∷ []) first
              rest),
      )

  stream-IsGoing :
      (its : List (List (StreamElement A))) → All Valid its → All IsGoing (stream (map spec its))
  stream-IsGoing [] d = tt
  stream-IsGoing (xs ∷ its) d =
      All-append IsGoing (spec xs) _ (tr.data_only xs d.0) (tt, stream-IsGoing its d.1)

  -- The loop of the worker ends, given fuel for each element, with no panic, and has passed on the
  -- transformed iterations in order.
  pub work-Reworks :
      (fuel : ℕ) (s : S) (its : List (List (StreamElement A)))
      → Idle s
      → All Valid its
      → length (stream (map spec its)) < fuel
      → work next fuel (s, stream its) ≡ some (stream (map spec its))
  work-Reworks fuel s its idle d h =
      let (t, y) = Yields-stream s its idle d in
      work-Yields next fuel (s, stream its) t (stream (map spec its)) h (stream-IsGoing its d) y
