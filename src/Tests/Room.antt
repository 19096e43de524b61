-- ===== src/Tests/Room.antt =====
-- A block of user 7 for a minute, seen in its last second, where TTL answers 1.
use mediasoup_socket_io_audi.Prelude.{ℕ, ◌≡◌, none, some, true}
use mediasoup_socket_io_audi.Prelude.Int.{pos}
use mediasoup_socket_io_audi.Prelude.Redis.{answers}
use mediasoup_socket_io_audi.Room.Blocks.{Blocks, write_block, get_status, write_block_lem}

abbrev no_blocks : Blocks
no_blocks u = none

abbrev last_second : ℕ → ℕ
last_second ms = 1

write_block_lem_run :
    (get_status last_second answers
      (write_block answers no_blocks 7 (some (pos 60)) 0).0
      7
      none
      59000).blocked
    ≡ true
write_block_lem_run = (write_block_lem last_second no_blocks 7 8 0 59000 (some (pos 60)) none).0
