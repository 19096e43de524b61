-- ===== src/Tests/Audio.antt =====
-- The audio player with user 4 playing and the users 5, 6 and 7 waiting, of whom 5 has gone.
use mediasoup_socket_io_audi.Prelude.{ℕ, ◌≡◌, refl, [], ◌∷◌, none, some, Bool, false, ◌==◌, not}
use mediasoup_socket_io_audi.Audio.Queue.{Music, hold, player_ttl_ms, enqueue_waiter, grant_head}
use mediasoup_socket_io_audi.Audio.Player.{acquire_slot, stop}
use mediasoup_socket_io_audi.Audio.Grants.{Served, grant_head-Served}
use mediasoup_socket_io_audi.Audio.Waiting.{IsNodup, enqueue_waiter_lem}
use mediasoup_socket_io_audi.Audio.Waiters.{disconnect, serve, serve-Inv}
use mediasoup_socket_io_audi.Audio.Turns.{Inv, Passes, acquire_slot_lem, stop_lem}

abbrev music : Music
music = record { slot = hold 4 0 player_ttl_ms; state = none; queue = 5 ∷ 6 ∷ 7 ∷ [] }

abbrev is_live : ℕ → Bool
is_live u = not (u == 5)

waiting-IsNodup : IsNodup music.queue
waiting-IsNodup = (refl, (refl, (refl, tt)))

grant_head-Served_example :
    Served 10 (some (4, 5 ∷ 6 ∷ 7 ∷ [])) (grant_head is_live music 10 (some 4))
grant_head-Served_example = grant_head-Served is_live music 10 4 refl

enqueue_waiter_lem_run : IsNodup (enqueue_waiter music 8).0.queue
enqueue_waiter_lem_run = (enqueue_waiter_lem music 8 waiting-IsNodup).0

acquire_slot_lem_run : acquire_slot music is_live 10 6 ≡ (music, false)
acquire_slot_lem_run = acquire_slot_lem music is_live 10 6

stop_lem_run : Passes 10 4 (some (6, 7 ∷ [])) (stop music is_live 10 4)
stop_lem_run = (stop_lem music is_live 10 4).1 refl

music-Inv : Inv 10 music
music-Inv = record { distinct = waiting-IsNodup; served = λ h. cc }

serve-Inv_example : Inv 10 (serve (disconnect false 4) is_live 10 music)
serve-Inv_example = serve-Inv (disconnect false 4) is_live 10 music music-Inv
