-- ===== src/Window/Feed.antt =====
-- src/operator/window/mod.rs: a window manager that is fed elements in turn, for managers that
-- return at most one result for an element.
use mathlib.Core.Option
use renoir.Prelude.{Option, none, some, List, [], ◌∷◌}
use renoir.Window.{WindowResult}

abbrev pub cons_some {ℓ} : {A : Type ℓ} → Option A → List A → List A
cons_some none xs = xs
cons_some (some x) xs = x ∷ xs

-- What `process` returns, with the manager after it; `none` is a panic.
abbrev pub Outcome {ℓ} : Type ℓ → Type ℓ → Type ℓ
Outcome Out M = Option (Option (WindowResult Out) × M)

-- The results of several elements, with the manager after them.
abbrev pub Fed {ℓ} : Type ℓ → Type ℓ → Type ℓ
Fed Out M = Option (List (WindowResult Out) × M)

abbrev pub then_feed {ℓ} : {Out M : Type ℓ} → Outcome Out M → (M → Fed Out M) → Fed Out M
then_feed none k = none
then_feed (some (r, m)) k = Option.map (λ rest. (cons_some r rest.0, rest.1)) (k m)

unfoldable pub feed {ℓ} : {E Out M : Type ℓ} → (M → E → Outcome Out M) → M → List E → Fed Out M
feed process m [] = some ([], m)
feed process m (e ∷ es) = then_feed (process m e) (λ m'. feed process m' es)
