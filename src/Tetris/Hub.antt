-- ===== src/Tetris/Hub.antt =====
-- tetrisd/main.c and hub.h: the master, which deals clients into rooms and joins the rooms of a match.
-- What it writes to its sockets is the list of effects that each function returns beside the new
-- state. The log, and `pid`, which only the log shows, are left out.
pub mod State
pub mod Dealing
pub mod Match
pub mod Daemon
pub mod Rooms
pub mod Ok
pub mod Kept
pub mod Sound
pub mod Balance
pub mod Parked
pub mod Ending
pub mod Silence
pub mod Announcement
pub mod Routing
mod Tests
