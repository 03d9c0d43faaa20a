-- ===== src/Operator/Fold/Summary.antt =====
-- What the iterations of a stream come to: their items, their highest timestamps and watermarks.
use renoir.Prelude.{ℕ, ◌≡◌, refl, ap, max, arith, Option, none, some, List, [], ◌∷◌}
use renoir.Stream.{Timestamp, StreamElement, item, timestamped, watermark}
use renoir.Operator.Fold.{raise}

module _ {ℓ} {A : Type ℓ} where
  abbrev pub values : List (StreamElement A) → List A
  values [] = []
  values (item x ∷ xs) = x ∷ values xs
  values (timestamped x ts ∷ xs) = x ∷ values xs
  values (_ ∷ xs) = values xs

  abbrev stamps : List (StreamElement A) → List Timestamp
  stamps [] = []
  stamps (timestamped x ts ∷ xs) = ts ∷ stamps xs
  stamps (_ ∷ xs) = stamps xs

  abbrev marks : List (StreamElement A) → List Timestamp
  marks [] = []
  marks (watermark ts ∷ xs) = ts ∷ marks xs
  marks (_ ∷ xs) = marks xs

-- The highest of the numbers.
abbrev top : ℕ → List ℕ → ℕ
top n [] = n
top n (m ∷ ms) = max n (top m ms)

abbrev highest : List ℕ → Option ℕ → Option ℕ
highest [] o = o
highest (n ∷ ns) none = some (top n ns)
highest (n ∷ ns) (some m) = some (top m (n ∷ ns))

top-max : (n m : ℕ) (ms : List ℕ) → top (max n m) ms ≡ top n (m ∷ ms)
top-max n m [] = refl
top-max n m (l ∷ ms) = omega arith

highest-raise : (t : Option ℕ) (n : ℕ) (ns : List ℕ) → highest ns (raise t n) ≡ highest (n ∷ ns) t
highest-raise none n [] = refl
highest-raise none n (m ∷ ms) = refl
highest-raise (some t) n [] = refl
highest-raise (some t) n (m ∷ ms) = ap some (top-max t n (m ∷ ms))

module _ {ℓ} {A : Type ℓ} where
  -- The highest of a timestamp, if there is one, and the timestamps of the items.
  abbrev pub latest : Option Timestamp → List (StreamElement A) → Option Timestamp
  latest t xs = highest (stamps xs) t

  -- The same of a watermark and the watermarks.
  abbrev pub last_watermark : Option Timestamp → List (StreamElement A) → Option Timestamp
  last_watermark w xs = highest (marks xs) w

  pub latest-raise :
      (t : Option Timestamp) (x : A) (ts : Timestamp) (xs : List (StreamElement A))
      → latest (raise t ts) xs ≡ latest t (timestamped x ts ∷ xs)
  latest-raise t x ts xs = highest-raise t ts (stamps xs)

  pub last_watermark-raise :
      (w : Option Timestamp) (ts : Timestamp) (xs : List (StreamElement A))
      → last_watermark (raise w ts) xs ≡ last_watermark w (watermark ts ∷ xs)
  last_watermark-raise w ts xs = highest-raise w ts (marks xs)
