-- ===== src/Source/ParallelIterator/Ranges.antt =====
-- The ranges of the replicas are the parts of one range.
use renoir.Prelude.{
  ℕ, zero, suc, ◌+◌, ◌-◌, ◌*◌, ◌%◌, ◌^◌, ◌≤◌, ◌<◌, min, ◌≡◌, sym, ap, ◌∙◌, inl, inr, [], ◌∷◌, ◌++◌,
  arith, leb, Bool-cases,
}
use renoir.Source.ParallelIterator.{
  u64_max, saturating_add, chunk_size, count_up, values, range_to, range_of_chunk,
}

count_up-append : (a m n : ℕ) → count_up a (m + n) ≡ count_up a m ++ count_up (a + m) n
count_up-append a zero n =
    ap (λ k. count_up a k) (omega arith) ∙ ap (λ b. count_up b n) (omega arith)
count_up-append a (suc m) n =
    ap (count_up a) (let q : suc m + n ≡ suc (m + n) = omega arith in q)
    ∙ ap (λ z. a ∷ z) (count_up-append (suc a) m n)
    ∙ ap (λ b. a ∷ (count_up (suc a) m ++ count_up b n))
        (let q : suc a + m ≡ a + suc m = omega arith in q)

pub values-append : (a b c : ℕ) → a ≤ b → b ≤ c → values a c ≡ values a b ++ values b c
values-append a b c h k =
    ap (count_up a) (let q : c - a ≡ (b - a) + (c - b) = omega arith in q)
    ∙ count_up-append a (b - a) (c - b)
    ∙ ap (λ z. values a b ++ count_up z (c - b)) (let q : a + (b - a) ≡ b = omega arith in q)

pub values-nil : (a b : ℕ) → b ≤ a → values a b ≡ []
values-nil a b h = ap (count_up a) (let q : b - a ≡ 0 = omega arith in q)

pub chunk_size-bounds :
    (n p : ℕ) → (n ≤ suc p * chunk_size n (suc p)) × (suc p * chunk_size n (suc p) ≤ n + p)
chunk_size-bounds n p = grind arith

-- Where the part of a replica begins.
abbrev pub bound : ℕ → ℕ → ℕ → ℕ → ℕ
bound lo hi index chunk = min (lo + index * chunk) hi

pub bound_mono : (lo hi i j chunk : ℕ) → i ≤ j → bound lo hi i chunk ≤ bound lo hi j chunk
bound_mono lo hi i j chunk h = let mono : i * chunk ≤ j * chunk = grind arith in omega (arith, mono)

mod_small : (p : ℕ) → p ≤ u64_max → p % 2 ^ 64 ≡ p
mod_small p h = omega arith

pub values_eq : (a a' b b' : ℕ) → a ≡ a' → b ≡ b' → values a b ≡ values a' b'
values_eq a a' b b' p q = ap (λ z. values z b) p ∙ ap (values a') q

part-values :
    (lo hi p c : ℕ)
    → lo ≤ hi
    → hi ≤ u64_max
    → values (saturating_add lo p) (range_to lo hi (saturating_add lo p) c)
      ≡ values (min (lo + p) hi) (min (lo + (p + c)) hi)
part-values lo hi p c h k = elim (Bool-cases (leb (lo + p) hi)) [
  | inl le ↦
      let le' : lo + p ≤ hi = ground arith in
      values_eq (saturating_add lo p) (min (lo + p) hi) (range_to lo hi (saturating_add lo p) c)
        (min (lo + (p + c)) hi) (omega arith) (omega arith)
  | inr gt ↦
      let gt' : hi < lo + p = ground arith in
      values-nil (saturating_add lo p) (range_to lo hi (saturating_add lo p) c) (omega arith)
      ∙ sym (values-nil (min (lo + p) hi) (min (lo + (p + c)) hi) (omega arith))
]

-- A replica yields the values between its bound and the next.
pub range_of_chunk_lem :
    (lo hi index chunk : ℕ)
    → lo ≤ hi
    → hi ≤ u64_max
    → index * chunk ≤ u64_max
    → range_of_chunk lo hi index chunk
      ≡ values (bound lo hi index chunk) (bound lo hi (suc index) chunk)
range_of_chunk_lem lo hi index chunk h k m =
    ap (λ p. values (saturating_add lo p) (range_to lo hi (saturating_add lo p) chunk))
      (mod_small (index * chunk) m)
    ∙ part-values lo hi (index * chunk) chunk h k
    ∙ ap (λ p. values (bound lo hi index chunk) (min (lo + p) hi))
        (let next : index * chunk + chunk ≡ suc index * chunk = ground arith in next)

-- Every replica but the last begins in time.
pub product_bound :
    (n p index : ℕ) → index ≤ p → n + p ≤ u64_max → index * chunk_size n (suc p) ≤ u64_max
product_bound n p index h k =
    let b = chunk_size-bounds n p in
    let mono : index * chunk_size n (suc p) ≤ suc p * chunk_size n (suc p) = grind arith in
    omega (arith, b.1, mono)
