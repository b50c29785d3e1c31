-- ===== src/Bomb.antt =====
-- The Bomberman half of the program.
pub mod Protocol
pub mod Arena
pub mod Bombs
