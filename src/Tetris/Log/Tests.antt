-- ===== src/Tetris/Log/Tests.antt =====
-- A record of the master with its name and a short message.
use corestack_50005_htt.Prelude.{◌≡◌, arith, some, take, length}
use corestack_50005_htt.Corestack.Hypertext.{c_string}
use corestack_50005_htt.Corestack.Htttp.{bytes}
use corestack_50005_htt.Tetris.Log.{
  Moment, LogRecord, log_level_info, build_log_record, pack_log_record, unpack_log_record,
  log_wire_size,
}
use corestack_50005_htt.Tetris.Log.Wire.{log_record_delivered}

abbrev now : Moment
now = record { tv_sec = 1700000000; tv_nsec = 250000000; pid = 77 }

abbrev sent : LogRecord
sent =
    (build_log_record now 5 log_level_info (some (bytes "tetrisd-with-a-long-name"))
      (some (bytes "Room 1"))).0

log_record_delivered_example :
    (length (pack_log_record sent) ≡ log_wire_size)
    × (unpack_log_record (pack_log_record sent) ≡ sent)
    × (c_string sent.source ≡ take 15 (bytes "tetrisd-with-a-long-name"))
    × (c_string sent.message ≡ take 255 (bytes "Room 1"))
log_record_delivered_example =
    log_record_delivered now 5 log_level_info (bytes "tetrisd-with-a-long-name") (bytes "Room 1")
      (omega arith) (ground arith) (ground arith)
