-- ===== src/Handlers/Reading.antt =====
-- `event_read`, by what `readData` reports.
use epoll_net.Base.{
  ℕ, suc, ◌+◌, ◌^◌, ◌<◌, ◌≤◌, none, some, List, [], ◌∷◌, ◌++◌, ◌≡◌, ◌≢◌, arith, ==_false, lt→ltb,
  length, Bool,
}
use epoll_net.Memory.{Ptr, null, done, write, load, modify, resume}
use epoll_net.Memory.Holds.{Holds, load-done, modify-done, not_null, Holds-write}
use epoll_net.World.{
  World, ConnObj, Call, ctl_del, close_fd, conn_closed, in_conns-done, in_strings-done,
}
use epoll_net.CStr.{malloc_str, header_bytes}
use epoll_net.CStr.Copies.{copied, create-done}
use epoll_net.Socket.{ReadReply, count, read_data}
use epoll_net.Epoll.{del_conn, call_ctl}
use epoll_net.ConnMgr.{cleared, close_conn, positive}
use epoll_net.ConnMgr.Recycle.{set_conn-done}
use epoll_net.Handlers.{event_read, receive, queue_item, recv_buffer, recv_bytes}

module _ (ctl : List Call → Call → Bool) (w : World) (p : Ptr) {c : ConnObj}
    (held : Holds w.conns p c) where
  pub read-load :
      (read : ℕ → ReadReply) (fuel : ℕ) (str item : Ptr)
      → event_read ctl read fuel str item p w
        ≡ receive ctl str item p (read_data (some read) recv_bytes fuel recv_buffer) w
  unfolding event_read
  read-load read fuel str item = rw (in_conns-done w (load p) (load-done held))

  pub del-done :
      del_conn ctl p w
      ≡ done (ctl w.calls (ctl_del c.fd)) (record w { calls = w.calls ++ ctl_del c.fd ∷ [] })
  unfolding del_conn call_ctl
  del-done = rw (in_conns-done w (load p) (load-done held))

-- `closeConnObj` of an open connection.
abbrev pub closed_conn : ConnObj → ConnObj
closed_conn c = record c { activity = conn_closed; fd = none }

close-done :
    (w : World) (p : Ptr) {c : ConnObj} (n : ℕ)
    → Holds w.conns p c
    → c.fd ≡ some (suc n)
    → close_conn p w
      ≡ done tt (record w {
        conns = write w.conns p (some (closed_conn c));
        calls = w.calls ++ close_fd (some (suc n)) ∷ [];
      })
unfolding close_conn
close-done w p {c} n held fd =
    let open_fd : positive c.fd ≡ some (suc n) = rw (fd, lt→ltb 0 (suc n) (omega arith)) in
    let w' = record w { calls = w.calls ++ close_fd (some (suc n)) ∷ [] } in
    let cut = in_conns-done w' (modify p closed_conn) (modify-done held closed_conn) in
    rw (not_null held, in_conns-done w (load p) (load-done held), resume, open_fd, cut)

module _ (ctl : List Call → Call → Bool) (w : World) (p : Ptr) {c : ConnObj}
    (held : Holds w.conns p c) (read : ℕ → ReadReply) (fuel : ℕ) (str item : Ptr) where
  -- A connection that the peer has closed leaves epoll, its descriptor is closed, and its object goes
  -- back to the pool, reset and without a descriptor; nothing is queued. Its descriptor is above 0.
  pub event_read-closed :
      (n : ℕ) (buffer : List ℕ)
      → c.fd ≡ some (suc n)
      → read_data (some read) recv_bytes fuel recv_buffer ≡ count 0 buffer
      → event_read ctl read fuel str item p w
        ≡ done tt (record w {
          conns = write (write w.conns p (some (closed_conn c))) p (some (cleared (closed_conn c)));
          pool = w.pool ++ p ∷ [];
          calls = (w.calls ++ ctl_del c.fd ∷ []) ++ close_fd (some (suc n)) ∷ [];
        })
  unfolding receive
  event_read-closed n buffer fd eof =
      let w1 = record w { calls = w.calls ++ ctl_del c.fd ∷ [] } in
      let w2 = record w1 {
        conns = write w.conns p (some (closed_conn c));
        calls = w1.calls ++ close_fd (some (suc n)) ∷ [];
      } in
      let back = set_conn-done w2 p (Holds-write held (closed_conn c)) in
      rw (
        read-load ctl w p held read fuel str item,
        eof,
        del-done ctl w p held,
        close-done w1 p n held fd,
        back,
      )

  -- Bytes that arrive are put into the queue as one item for the connection, with a string of just
  -- these bytes, and the semaphore is raised by one. The buffer is large enough for them, and `malloc`
  -- gives the string and the item.
  pub event_read-count :
      (n : ℕ) (buffer : List ℕ)
      → suc n < 2 ^ 32
      → suc n ≤ length buffer
      → str ≢ null
      → item ≢ null
      → read_data (some read) recv_bytes fuel recv_buffer ≡ count (suc n) buffer
      → event_read ctl read fuel str item p w
        ≡ done tt (record w {
          strings = write w.strings str (some (copied buffer (suc n)));
          received =
              w.received
              ++ record { connobj = p; recvptr = str + header_bytes; recvlen = suc n } ∷ [];
          posts = w.posts + 1;
        })
  unfolding receive queue_item malloc_str
  event_read-count n buffer small enough ne ne' got =
      let made = create-done w.strings str buffer (suc n) ne (omega arith) small enough in
      rw (
        read-load ctl w p held read fuel str item,
        got,
        in_strings-done w (malloc_str str (some buffer) (suc n)) made,
        ==_false item null ne',
      )
