-- ===== src/Handlers.antt =====
-- The handlers of epoll.c, which `epollEvent_wait` calls, over connobj.c, connmgr.c and cstr.c.
-- `ctl` says which calls of `epoll_ctl` succeed. Locks are left out: each handler is one step.
pub mod Reading
pub mod Writing
pub mod Sending
use epoll_net.Base.{
  ℕ, zero, suc, ◌+◌, ◌*◌, Bool, true, false, ◌&&◌, ◌||◌, Option, none, some, List, [], ◌∷◌, ◌++◌,
  ltb, ◌==◌, if◌then◌else◌, replicate,
}
use epoll_net.Memory.{Ptr, null, Prog, done, pure, give_up, ◌>>=◌, ◌>>◌, load, modify}
use epoll_net.CStr.{malloc_str, free_str}
use epoll_net.Socket.{
  WriteReply, ReadReply, SendRun, ReadRun, send_data, read_data, returned, sent, count,
  no_connection,
}
use epoll_net.Socket
use epoll_net.World.{World, ConnObj, Item, Mask, Call, close_fd, in_conns, in_strings, log_call}
use epoll_net.Epoll.{del_conn, modify_conn}
use epoll_net.ConnMgr.{set_conn, close_conn}

abbrev pub read_only : Mask
read_only = record { read = true; write = false; err = false }

abbrev pub write_only : Mask
write_only = record { read = false; write = true; err = false }

-- The array `recvbuffer`, zeroed.
abbrev pub recv_bytes : ℕ
recv_bytes = 1024 * 16

unfoldable pub recv_buffer : List ℕ
recv_buffer = replicate recv_bytes 0

-- `push` on the receive queue and `post` on its semaphore, if `malloc` gave an item.
unfoldable pub queue_item : Ptr → Ptr → Ptr → ℕ → Prog World (Unit {0})
queue_item item p dptr n w =
    if item == null
    then done tt w
    else done tt (record w {
      received = w.received ++ record { connobj = p; recvptr = dptr; recvlen = n } ∷ [];
      posts = w.posts + 1;
    })

module _ (ctl : List Call → Call → Bool) where
  -- What is done with a result of `readData`; `str` and `item` are what `malloc` returns.
  unfoldable pub receive : Ptr → Ptr → Ptr → ReadRun → Prog World (Unit {0})
  unfolding queue_item
  receive str item p (count zero buffer) = do _ ← del_conn ctl p; close_conn p; set_conn p
  receive str item p (count (suc n) buffer) = do
    dptr ← in_strings (malloc_str str (some buffer) (suc n))
    queue_item item p dptr (suc n)
  receive str item p Socket.ReadRun.again = pure tt
  receive str item p no_connection = pure tt
  receive str item p Socket.ReadRun.running = give_up

  unfoldable pub event_read : (ℕ → ReadReply) → ℕ → Ptr → Ptr → Ptr → Prog World (Unit {0})
  unfolding receive
  event_read read fuel str item p = do
    _ ← in_conns (load p)
    receive str item p (read_data (some read) recv_bytes fuel recv_buffer)

  unfoldable pub ask : Ptr → Mask → Prog World (Unit {0})
  ask p m = do _ ← modify_conn ctl p m; pure tt

  -- What is done with a result of `sendData`.
  unfoldable pub after_send : Ptr → ConnObj → SendRun → Prog World (Unit {0})
  unfolding ask
  after_send p c (returned sent calls) = do
    in_strings (free_str c.sendptr)
    in_conns (modify p λ c. record c { sendptr = null; sendlen = 0 })
    ask p read_only
  after_send p c (returned Socket.SendCode.again calls) = ask p write_only
  after_send p c (returned Socket.SendCode.error calls) = ask p read_only
  after_send p c Socket.SendRun.running = give_up

  unfoldable pub event_write : (ℕ → ℕ → ℕ → WriteReply) → ℕ → Ptr → Prog World (Unit {0})
  unfolding after_send
  event_write write fuel p = do
    c ← in_conns (load p)
    if c.sendptr == null
        then pure tt
        else if ltb 0 c.sendlen
        then after_send p c (send_data write (some c.sendlen) fuel)
        else pure tt
