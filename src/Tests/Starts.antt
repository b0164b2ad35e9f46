-- ===== src/Tests/Starts.antt =====
-- A server that is started in an empty state with one slot for events.
use epoll_net.Base.{
  ◌+◌, ◌&&◌, ◌≡◌, ◌⊎◌, refl, arith, true, false, Bool, none, some, List, [], ◌∷◌, replicate,
}
use epoll_net.Memory.{Ptr, null, done, write}
use epoll_net.Memory.Holds.{Holds}
use epoll_net.World.{World, ConnObj, connecting, conn_closed, Call, ctl_add, close_fd}
use epoll_net.Threadpool.Lifecycle.{create}
use epoll_net.Server.Listen.{
  listen_flags, SocketReplies, listen, PoolMakings, make_pool, Makings, Started, start_server,
  process_name, loop_name,
}
use epoll_net.Server.Listening.{listen-add_conn}
use epoll_net.Server.Launch.{task_for, start_server-add_tasks}

-- An object whose descriptor is 7.
abbrev left_over : ConnObj
left_over = record { fd = some 7; activity = connecting; port = 80; sendptr = null; sendlen = 3 }

abbrev blank : World
blank = record {
  conns = write (λ _. none) 50 (some left_over);
  strings = λ _. none;
  slots = record { flags = listen_flags; conn = null } ∷ [];
  pool = [];
  received = [];
  posts = 0;
  calls = [];
}

abbrev accepts : List Call → Call → Bool
accepts _ _ = true

abbrev all_well : SocketReplies
all_well = record { socket = some 4; reuse = true; bind = true; listen = true }

abbrev no_socket : SocketReplies
no_socket = record { socket = none; reuse = true; bind = true; listen = true }

abbrev port_taken : SocketReplies
port_taken = record { socket = some 4; reuse = true; bind = false; listen = true }

abbrev pool_at : Ptr → PoolMakings
pool_at p = record { pool = p; ids = p + 1; locker = p + 2; start = λ i. some (i + 90); signal = 0 }

abbrev makings : Makings
makings = record {
  server = 40;
  connmgr = 45;
  connobj = 50;
  junk = left_over;
  serverthread = pool_at 60;
  datathread = pool_at 70;
}

left_over-Holds : Holds blank.conns 50 left_over
unfolding write
left_over-Holds = record { ne_null = omega arith; object = refl }

listen-add_conn_example :
    (w' : World) × (((true && (false && true)) ≡ true)
        × (listen accepts port_taken 50 blank ≡ done true w')
        × Holds w'.conns 50 (record left_over { fd = some 4 })
        × (w'.calls ≡ ctl_add (some 4) (record { flags = listen_flags; conn = 50 }) ∷ [])
      ⊎ ((true && (false && true)) ≡ false)
        × (listen accepts port_taken 50 blank ≡ done false w')
        × Holds w'.conns 50 (record left_over { activity = conn_closed; fd = none })
        × (w'.calls ≡ close_fd (some 4) ∷ []))
listen-add_conn_example =
    listen-add_conn accepts port_taken blank 50 left_over-Holds 4 refl (omega arith) refl

start_server-add_tasks_example :
    (w' : World) × (st : Started) × (start_server accepts makings all_well 11 12
        (λ i. i + 80)
        8080
        blank
      ≡ done (some st) w')
    × (st.data_tasks ≡ some (replicate 5 (task_for 11 40 process_name)))
    × (st.server_tasks ≡ some (task_for 12 40 loop_name ∷ []))
    × (w'.calls ≡ ctl_add (some 4) (record { flags = listen_flags; conn = 50 }) ∷ [])
unfolding make_pool create
start_server-add_tasks_example =
    start_server-add_tasks accepts makings all_well 11 12 (λ i. i + 80) 8080 blank 4 (omega arith)
      (omega arith) (omega arith) refl refl refl refl refl (omega arith) (omega arith)
      (λ i lt. omega arith)
