-- ===== src/Server/Delivery.antt =====
-- What becomes of the bytes of a client, from the socket to the worker and back.
use epoll_net.Base.{
  ℕ, suc, ◌+◌, ◌^◌, ◌<◌, ◌≤◌, some, List, [], ◌∷◌, ◌++◌, ◌≡◌, ◌≢◌, refl, ap, length, Bool,
}
use epoll_net.Memory.{Ptr, null, Prog, done, write, resume, ◌>>◌}
use epoll_net.Memory.Holds.{Holds}
use epoll_net.World.{World, ConnObj, Call, ctl_del, close_fd}
use epoll_net.CStr.{header_bytes}
use epoll_net.CStr.Copies.{copied}
use epoll_net.Socket.{ReadReply, count, read_data}
use epoll_net.ConnMgr.{cleared, get_conn}
use epoll_net.Handlers.{event_read, recv_buffer, recv_bytes}
use epoll_net.ConnMgr.Recycle.{get_conn-cons}
use epoll_net.Handlers.Reading.{closed_conn, event_read-count, event_read-closed}
use epoll_net.Server.{process_round, handle_item, take_item}

module _ (ctl : List Call → Call → Bool) (w : World) (p : Ptr) {c : ConnObj}
    (held : Holds w.conns p c) (read : ℕ → ReadReply) (fuel : ℕ) (str item : Ptr) (n : ℕ)
    (buffer : List ℕ) (small : suc n < 2 ^ 32) (enough : suc n ≤ length buffer) (ne : str ≢ null)
    (ne' : item ≢ null)
    (got : read_data (some read) recv_bytes fuel recv_buffer ≡ count (suc n) buffer) where
  -- Bytes arrive where nothing is queued and the semaphore is 0: the next round of a worker hands just
  -- these bytes to the client's callback, with their connection, and then frees their string; queue
  -- and semaphore are as they were before. There is at least one byte, the buffer has room for all of
  -- them, and `malloc` gives the string and the item.
  pub process_round-event_read :
      (procread : Ptr → Ptr → ℕ → Prog World (Unit {0}))
      → w.received ≡ []
      → w.posts ≡ 0
      → (do event_read ctl read fuel str item p; process_round procread) w
        ≡ handle_item procread
            (record { connobj = p; recvptr = str + header_bytes; recvlen = suc n })
            (record w {
              strings = write w.strings str (some (copied buffer (suc n)));
              received = [];
              posts = 0;
            })
  unfolding process_round take_item
  process_round-event_read procread empty none_posted = rw (
    event_read-count ctl w p held read fuel str item n buffer small enough ne ne' got,
    resume,
    none_posted,
    empty,
  )

  -- A client that sends bytes and closes, before a worker runs: its object is given to the next client
  -- while the item for the bytes is still queued, so that a reply to it goes to that client. The pool
  -- was empty, and the descriptor is above 0.
  pub get_conn-event_read :
      (k : ℕ) (read' : ℕ → ReadReply) (buffer' : List ℕ) (new : Ptr) (junk : ConnObj)
      → c.fd ≡ some (suc k)
      → w.pool ≡ []
      → read_data (some read') recv_bytes fuel recv_buffer ≡ count 0 buffer'
      → (w' : World) × (((do
        event_read ctl read fuel str item p
        event_read ctl read' fuel str item p
        get_conn new junk)
              w
            ≡ done p w')
          × ((w'.pool ≡ [])
              × (w'.received
                  ≡ w.received
                    ++ record { connobj = p; recvptr = str + header_bytes; recvlen = suc n } ∷ [])))
  get_conn-event_read k read' buffer' new junk fd empty eof =
      let w1 = record w {
        strings = write w.strings str (some (copied buffer (suc n)));
        received =
            w.received
            ++ record { connobj = p; recvptr = str + header_bytes; recvlen = suc n } ∷ [];
        posts = w.posts + 1;
      } in
      let first =
        event_read-count ctl w p held read fuel str item n buffer small enough ne ne' got in
      let second = event_read-closed ctl w1 p held read' fuel str item k buffer' fd eof in
      let w2 = record w1 {
        conns = write (write w.conns p (some (closed_conn c))) p (some (cleared (closed_conn c)));
        pool = w.pool ++ p ∷ [];
        calls = (w.calls ++ ctl_del c.fd ∷ []) ++ close_fd (some (suc k)) ∷ [];
      } in
      let third = get_conn-cons w2 p [] new junk (ap (λ q. q ++ p ∷ []) empty) in
      (record w2 { pool = [] }, (rw (first, second, third), (refl, refl)))
