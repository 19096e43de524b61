-- ===== src/Tests/Presence.antt =====
-- A user with two sockets, one of which drops, and a user whose one socket drops and connects again.
use mediasoup_socket_io_audi.Prelude.{ℕ, ◌≡◌, List, [], ◌∷◌, true, false, arith}
use mediasoup_socket_io_audi.Presence.Connections.{snapshot}
use mediasoup_socket_io_audi.Presence.Online.{Change, connects, disconnects, sweeps}
use mediasoup_socket_io_audi.Presence.Overlap.{Play, Steps, connected, offline_while_connected}

abbrev two_tabs : List (ℕ × Change)
two_tabs = (100, connects) ∷ (200, connects) ∷ (300, disconnects) ∷ (400, sweeps) ∷ []

offline_while_connected_example :
    (q : Play) × Steps 1000 10 (connected 500 (true ∷ [])) q
    × (q.sockets ≡ 1)
    × (q.connecting ≡ [])
    × (q.deleting ≡ 0)
    × (snapshot 10 q.presence ≡ false)
    × (q.presence.updates ≡ false ∷ true ∷ true ∷ [])
offline_while_connected_example = offline_while_connected 1000 10 500 (true ∷ []) (omega arith)
