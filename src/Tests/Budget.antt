-- ===== src/Tests/Budget.antt =====
-- A bucket of two tokens that refills one token in a second.
use mediasoup_socket_io_audi.Prelude.{◌≡◌, List, [], ◌∷◌, true, false, arith}
use mediasoup_socket_io_audi.Budget.Bucket.{TokenBucket, Packet, on_packets}
use mediasoup_socket_io_audi.Budget.Bounds.{Bounded, passed_count, on_packets-Bounded, burst_passes}

abbrev bucket : TokenBucket
bucket = record { capacity = 2; refill_per_second = 1; tokens = 2000; last_refill_at = 0 }

abbrev packets : List Packet
packets =
    record { at = 5; has_ack = true }
    ∷ record { at = 6; has_ack = false }
    ∷ record { at = 7; has_ack = true }
    ∷ []

on_packets-Bounded_example : Bounded bucket 0 packets (on_packets (bucket, 0) packets)
on_packets-Bounded_example = on_packets-Bounded bucket 0 packets (omega arith)

abbrev burst : List Packet
burst = record { at = 5; has_ack = true } ∷ record { at = 3; has_ack = false } ∷ []

burst_passes_run : passed_count (on_packets (bucket, 0) burst).1 ≡ 2
burst_passes_run = (burst_passes bucket 0 burst (omega arith) (omega arith)).0
