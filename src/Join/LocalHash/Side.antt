-- ===== src/Join/LocalHash/Side.antt =====
-- One side of `JoinLocalHash` against the list of the items that it received.
use renoir.Prelude.{
  ℕ, ◌+◌, ◌≡◌, refl, Bool, true, false, not, ◌||◌, ◌&&◌, Option, none, some, List, [], ◌∷◌, ◌++◌,
  append-nil, arith, if◌then◌else◌, Bool-cases, inl, inr,
}
use renoir.Prelude.Keys.{KeyEq, same}
use renoir.Prelude.HashMap.{
  get, push, appended, get-push_same, get-push_ne, entry_total, total-push, contains, insert,
  contains-insert,
}
use renoir.Prelude.Sums.{total, total-append, total-map, total-zero}
use renoir.Join.LocalHash.{unmatched, new_tuples, drained, is_empty}
use renoir.Join.LocalHash.Spec.{matching}

module _ {ℓ} {A : Type ℓ} where
  abbrev pub group_of : List A → Option (List A)
  group_of [] = none
  group_of (x ∷ xs) = some (x ∷ xs)

  group_of-snoc : (x : A) (xs : List A) → some (appended x (group_of xs)) ≡ group_of (xs ++ x ∷ [])
  group_of-snoc x [] = refl
  group_of-snoc x (y ∷ xs) = refl

  is_empty-append : (xs ys : List A) → is_empty (xs ++ ys) ≡ (is_empty xs && is_empty ys)
  is_empty-append [] ys = refl
  is_empty-append (x ∷ xs) ys = refl

  seen_or_new : (b e : Bool) (x : A) → (b || not e) ≡ not (e && is_empty (if b then x ∷ [] else []))
  seen_or_new true true x = refl
  seen_or_new true false x = refl
  seen_or_new false true x = refl
  seen_or_new false false x = refl

module _ {ℓ} {Key A : Type ℓ} ⦃key : KeyEq Key⦄ (keyer : A → Key) where
  -- What the groups hold of the items, when the other side has ended, or has not.
  abbrev pub Stored : Bool → List A → List (Key × List A) → Type ℓ
  Stored true xs groups = groups ≡ []
  Stored false xs groups =
      ((k : Key) → get k groups ≡ group_of (matching keyer k xs))
      × ((w : Key → A → ℕ) → total (entry_total w) groups ≡ total (λ x. w (keyer x) x) xs)

  -- What the set of keys holds, when this side has ended, or has not, and when the other is outer.
  abbrev pub Seen : Bool → Bool → List A → List Key → Type ℓ
  Seen true outer xs keys = keys ≡ []
  Seen false false xs keys = keys ≡ []
  Seen false true xs keys = (k : Key) → contains k keys ≡ not (is_empty (matching keyer k xs))

  pub matching-snoc :
      (k : Key) (x : A) (xs : List A)
      → matching keyer k (xs ++ x ∷ [])
        ≡ matching keyer k xs ++ (if same (keyer x) k then x ∷ [] else [])
  matching-snoc k x [] = refl
  matching-snoc k x (y ∷ xs) = elim (Bool-cases (same (keyer y) k)) [
    | inl e ↦ rw (e, matching-snoc k x xs) refl
    | inr n ↦ rw (n, matching-snoc k x xs) refl
  ]

  get-push :
      (x : A) (xs : List A) (groups : List (Key × List A)) (k : Key)
      → ((k : Key) → get k groups ≡ group_of (matching keyer k xs))
      → get k (push (keyer x) x groups) ≡ group_of (matching keyer k (xs ++ x ∷ []))
  get-push x xs groups k h = elim (Bool-cases (same (keyer x) k)) [
    | inl e ↦
        rw (get-push_same (keyer x) k x groups e, h k, matching-snoc k x xs, e)
          (group_of-snoc x (matching keyer k xs))
    | inr n ↦
        rw (matching-snoc k x xs, n, get-push_ne (keyer x) k x groups n, h k) rw
          (append-nil (matching keyer k xs)) refl
  ]

  pub Stored-push :
      (ended : Bool) (x : A) (xs : List A) (groups : List (Key × List A))
      → Stored ended xs groups
      → Stored ended (xs ++ x ∷ []) (if ended then groups else push (keyer x) x groups)
  Stored-push true x xs groups h = h
  Stored-push false x xs groups (found, sums) = (
    λ k. get-push x xs groups k found,
    λ w. omega (
      arith,
      sums w,
      total-push w (keyer x) x groups,
      total-append (λ x. w (keyer x) x) xs (x ∷ []),
    ),
  )

  pub Seen-insert :
      (outer : Bool) (x : A) (xs : List A) (keys : List Key)
      → Seen false outer xs keys
      → Seen false outer (xs ++ x ∷ []) (if outer then insert (keyer x) keys else keys)
  Seen-insert false x xs keys h = h
  Seen-insert true x xs keys h = λ k.
      rw
        (
          contains-insert (keyer x) k keys,
          matching-snoc k x xs,
          is_empty-append (matching keyer k xs) (if same (keyer x) k then x ∷ [] else []),
          h k,
        )
        (seen_or_new (same (keyer x) k) (is_empty (matching keyer k xs)) x)

  -- A group of the side: empty when the other side has ended.
  pub Stored-nil : Stored false [] []
  Stored-nil = (λ k. refl, λ w. refl)

module _ {ℓ} {Key OutL OutR T : Type ℓ} ⦃key : KeyEq Key⦄ (mk : Option OutL → Option OutR → T)
    (w : Key × T → ℕ) where
  pub total-new_tuples :
      (k : Key) (x : OutL) (ys : List OutR) (outer : Bool)
      → total w (new_tuples mk k x (group_of ys) outer)
        ≡ total (λ y. w (k, mk (some x) (some y))) ys
          + total w (if outer then (if is_empty ys then (k, mk (some x) none) ∷ [] else []) else [])
  total-new_tuples k x [] true = omega arith
  total-new_tuples k x [] false = omega arith
  total-new_tuples k x (y ∷ ys) true =
      omega (arith, total-map w (λ y. (k, mk (some x) (some y))) ys)
  total-new_tuples k x (y ∷ ys) false =
      omega (arith, total-map w (λ y. (k, mk (some x) (some y))) ys)

  pub total-drained :
      (seen : List Key) (m : List (Key × List OutR))
      → total w (drained mk seen m)
        ≡ total (entry_total (λ k y. if contains k seen then 0 else w (k, mk none (some y)))) m
  total-drained seen [] = refl
  total-drained seen ((k, ys) ∷ m) = elim (Bool-cases (contains k seen)) [
    | inl c ↦ rw c (omega (arith, total-zero ys, total-drained seen m))
    | inr n ↦ rw n (
        omega (
          arith,
          total-append w (unmatched mk k ys) (drained mk seen m),
          total-map w (λ y. (k, mk none (some y))) ys,
          total-drained seen m,
        ))
  ]
