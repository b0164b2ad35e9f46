-- ===== src/Tests/Servers.antt =====
-- A server with one client: the object at 10, with descriptor 5, and the pool empty or just with it.
use epoll_net.Base.{
  ℕ, zero, suc, ◌+◌, ◌<◌, none, some, List, [], ◌∷◌, ◌≡◌, ◌⊎◌, refl, arith, drop, Bool, true, false,
}
use epoll_net.Memory.{Ptr, null, Prog, done, write, pure, ◌>>◌}
use epoll_net.Memory.Holds.{Holds}
use epoll_net.World.{World, ConnObj, connected, Event, Call, ctl_add, close_fd}
use epoll_net.CStr.{Strings}
use epoll_net.CStr.Copies.{copied}
use epoll_net.Socket.{
  ReadReply, got, closed, WriteReply, wrote, count, returned, sent, read_data, send_data,
}
use epoll_net.ConnMgr.{cleared, get_conn}
use epoll_net.Epoll.{wanted}
use epoll_net.Handlers.{event_read, recv_buffer, recv_bytes, read_only, write_only}
use epoll_net.Server.{
  AcceptReply, accepted, interrupted, Replies, callback, accept_conn, process_round, handle_item,
}
use epoll_net.Server.Accepting.{fresh, watch, accept_conn-register}
use epoll_net.Server.Delivery.{process_round-event_read, get_conn-event_read}
use epoll_net.Server.Hangup.{hung_up, callback-hung_up}

abbrev pub always : List Call → Call → Bool
always calls c = true

abbrev pub client : ConnObj
client = record { fd = some 5; activity = connected; port = 80; sendptr = 0; sendlen = 0 }

abbrev pub quiet : Event
quiet = record { flags = wanted read_only; conn = 10 }

abbrev writable : Event
writable = record { flags = wanted write_only; conn = 10 }

abbrev no_strings : Strings
no_strings p = none

abbrev pub one_client : World
one_client = record {
  conns = write (λ _. none) 10 (some client);
  strings = no_strings;
  slots = quiet ∷ [];
  pool = [];
  received = [];
  posts = 0;
  calls = [];
}

pub client-held : Holds one_client.conns 10 client
unfolding write
client-held = record { ne_null = omega arith; object = refl }

abbrev hang_up : ℕ → ReadReply
hang_up n = closed

abbrev pub one_byte : ℕ → ReadReply
one_byte n = got 7 []

hang_up-count : read_data (some hang_up) recv_bytes 1 recv_buffer ≡ count 0 recv_buffer
unfolding read_data
hang_up-count = refl

pub one_byte-count :
    read_data (some one_byte) recv_bytes 1 recv_buffer ≡ count 1 (7 ∷ drop 1 recv_buffer)
unfolding read_data
one_byte-count = refl

abbrev said_nothing : Ptr → Ptr → ℕ → Prog World (Unit {0})
said_nothing p str len = pure tt

abbrev pub one_read : List ℕ
one_read = 7 ∷ drop 1 recv_buffer

process_round-event_read_example :
    (do event_read always one_byte 1 100 200 10; process_round said_nothing) one_client
    ≡ handle_item said_nothing
        (record { connobj = 10; recvptr = 108; recvlen = 1 })
        (record one_client {
          strings = write no_strings 100 (some (copied one_read 1));
          received = [];
          posts = 0;
        })
process_round-event_read_example =
    process_round-event_read always one_client 10 client-held one_byte 1 100 200 0 one_read
      (omega arith) (omega arith) (omega arith) (omega arith) one_byte-count said_nothing refl refl

get_conn-event_read_example :
    (w : World) × (((do
      event_read always one_byte 1 100 200 10
      event_read always hang_up 1 100 200 10
      get_conn 20 client)
          one_client
        ≡ done 10 w)
      × ((w.pool ≡ []) × (w.received ≡ record { connobj = 10; recvptr = 108; recvlen = 1 } ∷ [])))
get_conn-event_read_example =
    get_conn-event_read always one_client 10 client-held one_byte 1 100 200 0 one_read (omega arith)
      (omega arith) (omega arith) (omega arith) one_byte-count 4 hang_up recv_buffer 20 client refl
      refl hang_up-count

abbrev pub takes_one : ℕ → ℕ → ℕ → WriteReply
takes_one n offset len = wrote 1

takes_one-sent : send_data takes_one (some 2) 1 ≡ returned sent ((0, 2) ∷ [])
unfolding send_data
takes_one-sent = refl

abbrev busy : ConnObj
busy = record client { sendptr = 108; sendlen = 2 }

abbrev busy_client : World
busy_client = record one_client { conns = write (λ _. none) 10 (some busy) }

busy-held : Holds busy_client.conns 10 busy
unfolding write
busy-held = record { ne_null = omega arith; object = refl }

abbrev one_pooled : World
one_pooled = record one_client { pool = 10 ∷ [] }

-- The first `accept` is interrupted, the second gives descriptor 6 of port 80.
abbrev second_try : ℕ → AcceptReply
second_try zero = interrupted
second_try (suc n) = accepted 6 80

abbrev replies : Replies
replies = record {
  accept = second_try;
  so_error = some 0;
  read = hang_up;
  write = takes_one;
  str = 100;
  item = 200;
  new = 20;
  junk = client;
}

one_pooled-held : Holds one_pooled.conns 10 client
unfolding write
one_pooled-held = record { ne_null = omega arith; object = refl }

second_try-first : (i : ℕ) → i < 1 → replies.accept i ≡ interrupted
second_try-first zero h = refl
second_try-first (suc i) h = absurd (omega (arith, h))

accept_conn-register_example :
    (w' : World) × (((always [] (ctl_add (some 6) (watch 10)) ≡ true)
        × (accept_conn always replies (1 + 1) 0 one_pooled ≡ done 10 w')
        × Holds w'.conns 10 (fresh client 6 80)
        × (w'.calls ≡ ctl_add (some 6) (watch 10) ∷ [])
        × (w'.pool ≡ []))
      ⊎ ((always [] (ctl_add (some 6) (watch 10)) ≡ false)
          × (accept_conn always replies (1 + 1) 0 one_pooled ≡ done null w')
          × Holds w'.conns 10 (cleared (fresh client 6 80))
          × (w'.calls ≡ ctl_add (some 6) (watch 10) ∷ close_fd (some 6) ∷ [])
          × (w'.pool ≡ 10 ∷ [])))
accept_conn-register_example =
    accept_conn-register always replies 1 0 6 80 second_try-first refl (omega arith) one_pooled 10
      one_pooled-held refl refl

-- The client with its string of two bytes, of which the kernel takes one.
abbrev loaded_client : World
loaded_client = record busy_client { strings = write no_strings 100 (some (copied (7 ∷ 8 ∷ []) 2)) }

callback-hung_up_example :
    callback always 1 replies 1 10 read_only loaded_client
    ≡ done tt (hung_up loaded_client 10 busy 4)
callback-hung_up_example =
    callback-hung_up always replies 1 loaded_client 10 busy-held 4 refl recv_buffer hang_up-count 1
      read_only (omega arith) refl refl
