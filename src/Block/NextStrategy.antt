-- ===== src/Block/NextStrategy.antt =====
-- src/block/next_strategy.rs: which replica of a block receives an item.
use renoir.Prelude.{ℕ}

pub data NextStrategy {ℓ} (Out : Type ℓ) : Type ℓ where
  only_one random all_replicas : NextStrategy Out
  group_by : (Out → ℕ) → NextStrategy Out

-- `generated` is what the random numbers give.
abbrev pub index {ℓ} : {Out : Type ℓ} → NextStrategy Out → ℕ → Out → ℕ
index only_one generated message = 0
index all_replicas generated message = 0
index random generated message = generated
index (group_by keyer) generated message = keyer message
