-- ===== src/Lib.antt =====
-- The rules, the protocols and the shared libraries of the corestack repository.
--
-- The repository is a multiplayer game stack in C: corestack (an HTTP-like protocol, an event bus
-- and a network layer), Tetris and Bomberman on top of it. A Tetris server is a master
-- process that deals its clients into rooms, and one worker process for each room. A worker keeps one
-- `GameState` for each player, changes it with the rules library libtetrisbrain on each received action
-- and on each tick, and passes the garbage of one player on to another, over the master where that one
-- plays in another room. A Bomberman server keeps one map
-- with its bombs and sends snapshots of it in packets of 512 bytes. Below both, corestack keeps the
-- list of the connected clients, moves messages over TCP, and puts requests into text messages.
--
-- Where what is modelled. Paths are from the root of the repository; the rules are the files
-- tetris/src/lib/libtetrisbrain/*.c with their headers in tetris/include/lib/libtetrisbrain.
--   Prelude           names of the libraries passed on, Boolean tests, lists as C arrays, integers
--   Corestack.Queue   corestack/include/utils/queue.h
--   Corestack.Sockets corestack/src/lib/libbattleroyale/common.c
--   Corestack.Clients corestack/src/lib/libbattleroyale/clientll.c
--   Corestack.Message corestack/src/lib/libbattleroyale/message.c, over TCP
--   Corestack.Hypertext  corestack/src/lib/libhypertext.c with its header
--   Corestack.Htttp      corestack/src/lib/libhtttp.c, and the payload of an action in libhtttp/payload.c
--   Corestack.EventBus   corestack/src/lib/libeventbus.c
--   Tetris.State      board.h, piece.h, state.h: `Board`, `Piece`, `GameState`
--   Tetris.Piece      the shapes and `get_rotation_index` of board_control.c
--   Tetris.Board      `is_valid_pos`, `lock_piece`, `clear_lines` of board_control.c
--   Tetris.Bag        bag.c
--   Tetris.Garbage    garbage.c
--   Tetris.Move       movement.c, and the rotations of board_control.c
--   Tetris.Engine     engine.c, hold.c, `start_game` of state.c
--   Tetris.Killfeed   killfeed.c
--   Tetris.Targeting  targeting.c
--   Tetris.Session    tetris/src/tetrisd/game.c, the session of a room, with `PlayerAction` of
--                     tetris/include/lib/libtetrisprotocol/protocol.h
--   Tetris.Protocol   tetris/src/lib/libtetrisprotocol/protocol.c, and `StatePayload` of
--                     corestack/include/lib/libhtttp/payload.h
--   Tetris.Room       `apply_remote_garbage` and `resolve_victim` of tetris/src/tetrisd/room.c, and in
--                     Tetris.Room.Worker the lobby, the tick loop and the end of `room_worker_run`
--   Tetris.Hub        tetris/src/tetrisd/main.c, the master of the rooms, with hub.h
--   Tetris.Log        logrecord.c and logclient.c of tetris/src/lib/libtetrislog with their headers
--   Tetris.Crossing   a room's worker, the master and another room's worker together
--   Bomb.Arena        tiles and power-ups: map.h, powerup_control.c and `tile_is_solid` of map.c, in
--                     bomberman/src/lib/libbombbrain
--   Bomb.Bombs        bomb_control.c and inventory.c there
--   Bomb.Protocol     bomberman/src/lib/libbombprotocol/protocol.c with its header
-- Each of these has child modules with its lemmas. The modules named Tests apply the theorems to
-- small games, sessions, packets, lists and messages.
--
-- How the code is read. A function that changes `*state` takes the state and returns the new one;
-- what it also returns is a further component. The definitions keep the names of the C functions and
-- fields; a loop body or a branch that is a definition of its own has a comment that says which.
-- `rand()` is a parameter: a sequence of the values that its calls are going to return, of which
-- nothing is assumed; a function that draws returns the values that are left. `srand` and `time` have
-- no other effect and are left out. Counters and identifiers are natural numbers, positions and the
-- combo integers without a bound; the `uint8_t` of a cell, the `uint32_t` of the pending garbage and
-- its cast to `int` wrap as in C. An array that is read out of its range gives a default, where C is
-- undefined. What `draw_kill_feed` prints is its list of entries and its number of empty lines.
--
-- In corestack a pointer to a struct with sockets is an address, `none` for NULL, and an action on the
-- memory has no result where C is undefined. The parser and the builder of text messages have three
-- outcomes: the return value -1, a write outside an array, and a result. What `malloc`, `socket`,
-- `recv` and `send` return, and what a listener does, are parameters; the laws of a connection that
-- stays up are the fields of `Reliable` in Corestack.Message.Transport. Bytes are natural numbers, and a
-- packet is the list of its bytes. A `float` of Bomberman is its 32 bits on the wire, and an element of a
-- type of times in the rules.
--
-- Loops. Loops with a known number of rounds recurse on the rounds that are left. `clear_lines` goes
-- on with the same row after a clear, so its loop has fuel: 41, one more than twice the height, since
-- each round goes up a row or uses up a full one. The loop of `hard_drop` has fuel for the rows from
-- the piece to the floor and one more: no piece fits lower. `tick_bombs` and `tick_explosions` have the
-- rear of the queue as fuel, since each round brings the index and the rear closer. `read_bytes` and
-- `send_bytes` have the number of bytes, since a call that succeeds moves one, and `count_headers` the
-- length of the text.
--
-- Not modelled: the generation of the Bomberman map and its collision test on floats, UDP messages, the
-- other payloads of HTTTP, the printed line of a log record, and the set-up of the processes of the servers and
-- the clients. Sockets, threads, rendering and OpenSSL lie outside a model of this kind.
pub mod Prelude
pub mod Corestack
pub mod Tetris
pub mod Bomb
