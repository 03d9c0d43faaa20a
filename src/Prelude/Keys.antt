-- ===== src/Prelude/Keys.antt =====
-- Keys with a Boolean equality, and hash maps and sets of them as association lists.
use Prim.Native.Nat.{ℕ}
use mathlib.Core.Path.{◌≡◌, refl, sym, ap, ◌∙◌}
use mathlib.Core.Logic.{◌↔◌, inl, inr}
use mathlib.Core.Bool.{Bool, true}
use renoir.Prelude.Tests.{Bool-cases, ◌==◌, ==_iff}

-- The equality of a `DataKey`.
pub record KeyEq {ℓ} (K : Type ℓ) : Type ℓ where
  pub same : K → K → Bool
  pub same_iff : (a b : K) → (same a b ≡ true) ↔ (a ≡ b)

module _ {ℓ} {K : Type ℓ} ⦃key : KeyEq K⦄ where
  abbrev pub same : K → K → Bool
  same = key.same

  pub same_refl : (a : K) → same a a ≡ true
  same_refl a = (key.same_iff a a).1 refl

  -- Equal keys are the same as the same keys.
  pub same_left : (a b c : K) → same a b ≡ true → same a c ≡ same b c
  same_left a b c e = ap (λ z. same z c) ((key.same_iff a b).0 e)

  pub same_right : (a b c : K) → same a b ≡ true → same c a ≡ same c b
  same_right a b c e = ap (same c) ((key.same_iff a b).0 e)

  pub same_sym : (a b : K) → same a b ≡ true → same b a ≡ true
  same_sym a b e = (key.same_iff b a).1 (sym ((key.same_iff a b).0 e))

  pub same_comm : (a b : K) → same a b ≡ same b a
  same_comm a b = elim (Bool-cases (same a b)) [
    | inl e ↦ e ∙ sym (same_sym a b e)
    | inr n ↦ elim (Bool-cases (same b a)) [ inl e ↦ cc (same_sym b a e) | inr m ↦ n ∙ sym m ]
  ]

instance abbrev pub nat_key : KeyEq ℕ
nat_key = record { same = ◌==◌; same_iff = ==_iff }
