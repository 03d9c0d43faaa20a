-- ===== src/Block.antt =====
-- src/block: how the elements that leave a block are put into messages.
pub mod Batcher
pub mod NextStrategy
