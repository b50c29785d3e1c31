-- ===== src/Tetris.antt =====
-- The Tetris half of the program: the rules (tetris/src/lib/libtetrisbrain), the session of a room and
-- the snapshots that a server sends.
pub mod State
pub mod Piece
pub mod Board
pub mod Bag
pub mod Garbage
pub mod Move
pub mod Engine
pub mod Killfeed
pub mod Targeting
pub mod Session
pub mod Protocol
pub mod Room
pub mod Hub
pub mod Log
pub mod Crossing
mod Tests
