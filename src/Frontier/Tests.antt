-- ===== src/Frontier/Tests.antt =====
-- Runs of the frontier, and its theorems at concrete inputs.
use renoir.Prelude.{ℕ, ◌≤◌, ◌≡◌, refl, ◌↔◌, ◌≢◌, Option, none, some, List, [], ◌∷◌, All}
use renoir.Stream.{Timestamp}
use renoir.Frontier.{WatermarkFrontier, new, update, advance, compute_frontier}
use renoir.Frontier.Map.{Coord, Coord-discrete, get, set}
use renoir.Frontier.Best.{Safe}
use renoir.Frontier.Safety.{
  Reach, start, received, Announces, front-iff-Safe, update-Announces, update-eq-none,
}

abbrev replica : ℕ → Coord
replica n = record { block_id = 1; host_id = 0; replica_id = n }

abbrev two : List Coord
two = replica 0 ∷ replica 1 ∷ []

abbrev state : Option Timestamp → Option Timestamp → Option Timestamp → WatermarkFrontier
state a b front = record { entries = (replica 0, a) ∷ (replica 1, b) ∷ []; front = front }

first_silent : update (new two) (replica 0) 20 ≡ some (none, state (some 20) none none)
unfolding update new advance compute_frontier get set Coord-discrete
first_silent = refl

second_announces :
    update (state (some 20) none none) (replica 1) 15
    ≡ some (some 15, state (some 20) (some 15) (some 15))
unfolding update advance compute_frontier get set Coord-discrete
second_announces = refl

abbrev reach :
    Reach two ((replica 1, 15) ∷ (replica 0, 20) ∷ []) (state (some 20) (some 15) (some 15))
reach =
    received (received start (replica 0) 20 none first_silent) (replica 1) 15 (some 15)
      second_announces

front-iff-Safe_example : (15 ≤ 15) ↔ Safe two ((replica 1, 15) ∷ (replica 0, 20) ∷ []) 15
front-iff-Safe_example =
    front-iff-Safe (replica 0) (replica 1 ∷ []) ((replica 1, 15) ∷ (replica 0, 20) ∷ [])
      (state (some 20) (some 15) (some 15)) 15 reach

update-Announces_example :
    Announces two ((replica 0, 20) ∷ []) ((replica 1, 15) ∷ (replica 0, 20) ∷ []) (some 15)
update-Announces_example =
    update-Announces (replica 0) (replica 1 ∷ []) ((replica 0, 20) ∷ []) (state (some 20) none none)
      (state (some 20) (some 15) (some 15)) (replica 1) 15 (some 15)
      (received start (replica 0) 20 none first_silent) second_announces

update-eq-none_example : (update (new two) (replica 7) 3 ≡ none) ↔ All (λ r. r ≢ replica 7) two
update-eq-none_example = update-eq-none two [] (new two) (replica 7) 3 start
