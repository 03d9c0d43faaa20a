-- ===== src/Prelude/Sums.antt =====
-- Weighted sums over lists, by which lists are compared as multisets.
use Prim.Native.Nat.{ℕ, ◌+◌}
use mathlib.Core.Path.{◌≡◌, refl, ap, ◌∙◌}
use mathlib.Core.Logic.{∥∥₁_elim}
use mathlib.Core.Bool.{Bool}
use mathlib.Core.List.{List, [], ◌∷◌, ◌++◌, map, Perm, Permᴰ}
use native.Mathlib.Omega.{arith}
use native.Mathlib.Decide.{ℕ_discrete}
use mathlib.Core.Path.{subst}
use mathlib.Core.HLevel.{×_prop}
use renoir.Prelude.Lists.{All}
use renoir.Prelude.Tests.{if◌then◌else◌}

module _ {ℓ} {A : Type ℓ} where
  abbrev pub total : (A → ℕ) → List A → ℕ
  total w [] = 0
  total w (x ∷ xs) = w x + total w xs

  -- How many members pass a test.
  abbrev pub count : (A → Bool) → List A → ℕ
  count p = total (λ x. if p x then 1 else 0)

  pub total-append : (w : A → ℕ) (xs ys : List A) → total w (xs ++ ys) ≡ total w xs + total w ys
  total-append w [] ys = omega arith
  total-append w (x ∷ xs) ys = omega (arith, total-append w xs ys)

  pub total-append3 :
      (w : A → ℕ) (xs ys zs : List A)
      → total w (xs ++ ys ++ zs) ≡ total w xs + total w ys + total w zs
  total-append3 w xs ys zs = omega (arith, total-append w (xs ++ ys) zs, total-append w xs ys)

  pub total-zero : (xs : List A) → total (λ x. 0) xs ≡ 0
  total-zero [] = refl
  total-zero (x ∷ xs) = omega (arith, total-zero xs)

  total-permᴰ : (w : A → ℕ) {xs ys : List A} → Permᴰ xs ys → total w xs ≡ total w ys
  total-permᴰ w Permᴰ.nil = refl
  total-permᴰ w (Permᴰ.cons e p) = ground (arith, ap w e, total-permᴰ w p)
  total-permᴰ w (Permᴰ.swap e f) = ground (arith, ap w e, ap w f)
  total-permᴰ w (Permᴰ.trans p q) = total-permᴰ w p ∙ total-permᴰ w q

  pub total-perm : (w : A → ℕ) (xs ys : List A) → Perm xs ys → total w xs ≡ total w ys
  total-perm w xs ys p = ∥∥₁_elim p (hlevel ℕ_discrete) (total-permᴰ w)

module _ {ℓ κ} {A : Type ℓ} {B : Type κ} where
  pub total-map :
      (w : B → ℕ) (f : A → B) (xs : List A) → total w (map f xs) ≡ total (λ x. w (f x)) xs
  total-map w f [] = refl
  total-map w f (x ∷ xs) = omega (arith, total-map w f xs)

module _ {ℓ κ} {A : Type ℓ} (P : A → Type κ) where
  All-prop : ((x : A) → IsProp (P x)) → (xs : List A) → IsProp (All P xs)
  All-prop prop [] = hlevel
  All-prop prop (x ∷ xs) = ×_prop (prop x) (All-prop prop xs)

  All-permᴰ : {xs ys : List A} → Permᴰ xs ys → All P xs → All P ys
  All-permᴰ Permᴰ.nil h = h
  All-permᴰ (Permᴰ.cons e p) h = (subst P e h.0, All-permᴰ p h.1)
  All-permᴰ (Permᴰ.swap e f) h = (subst P f h.1.0, (subst P e h.0, h.1.1))
  All-permᴰ (Permᴰ.trans p q) h = All-permᴰ q (All-permᴰ p h)

  -- A permutation keeps what holds of every member.
  pub All-perm : ((x : A) → IsProp (P x)) → (xs ys : List A) → Perm xs ys → All P xs → All P ys
  All-perm prop xs ys p h = ∥∥₁_elim p (All-prop prop ys) (λ q. All-permᴰ q h)
