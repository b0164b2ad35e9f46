-- ===== src/Server.antt =====
-- server.c and `epollEvent_callback` of epoll.c: accepting connections, dispatching to the handlers,
-- queueing replies, and the rounds of the worker threads. The server object is not NULL; socket
-- options, times and the text of addresses are left out.
pub mod Accepting
pub mod Delivery
pub mod Hangup
pub mod Ownership
pub mod Serving
pub mod Conversation
pub mod Listen
pub mod Listening
pub mod Starting
pub mod Launch
pub mod Workers
pub mod Reply
use epoll_net.Base.{
  ℕ, zero, suc, ◌+◌, ◌-◌, Bool, true, false, ◌&&◌, Option, none, some, List, [], ◌∷◌, ◌++◌, ltb,
  ◌==◌, if◌then◌else◌,
}
use epoll_net.Memory.{Ptr, null, Prog, done, crash, pure, give_up, ◌>>=◌, ◌>>◌, load, modify}
use epoll_net.CStr.{malloc_str, free_str}
use epoll_net.Socket.{WriteReply, ReadReply}
use epoll_net.World.{
  World, ConnObj, Activity, connecting, connected, conn_closed, Flags, Event, Item, Mask, Call,
  close_fd, in_conns, in_strings, log_call,
}
use epoll_net.Epoll.{Callback, add_conn, modify_conn, wait}
use epoll_net.ConnMgr.{set_conn, get_conn}
use epoll_net.Handlers.{event_read, event_write, write_only}

-- A reply of `accept`: a descriptor with the peer's port, or -1 with EINTR or another error.
pub data AcceptReply : Type 0 where
  accepted : ℕ → ℕ → AcceptReply
  interrupted refused : AcceptReply

-- What the environment gives to one callback: the replies to `accept`, the value of SO_ERROR (`none`
-- if `getsockopt` fails), the replies to `read` and `write`, and what `malloc` returns for the string,
-- the item and a new connection object, with what the block of that one holds.
pub record Replies : Type 0 where
  pub accept : ℕ → AcceptReply
  pub so_error : Option ℕ
  pub read : ℕ → ReadReply
  pub write : ℕ → ℕ → ℕ → WriteReply
  pub str : Ptr
  pub item : Ptr
  pub new : Ptr
  pub junk : ConnObj

-- EPOLLET | EPOLLIN | EPOLLRDHUP
abbrev pub accept_flags : Flags
accept_flags = record {
  inp = true;
  out = false;
  err = false;
  hup = false;
  rdhup = true;
  edge = true;
}

-- `sock_err` of `Server_Accept`
unfoldable pub refuse : ℕ → Prog World Ptr
refuse fd = if fd == 0 then pure null else do log_call (close_fd (some fd)); pure null

unfoldable pub when_connected : Activity → Prog World (Unit {0}) → Prog World (Unit {0})
when_connected connecting m = pure tt
when_connected connected m = m
when_connected conn_closed m = pure tt

-- The value that `getsockopt` gives, if it does not fail.
unfoldable pub with_value : Option ℕ → (ℕ → Prog World (Unit {0})) → Prog World (Unit {0})
with_value none k = pure tt
with_value (some val) k = k val

module _ (ctl : List Call → Call → Bool) where
  unfoldable pub register : ℕ → ℕ → Ptr → Prog World Ptr
  unfolding refuse
  register fd port p = if p == null then refuse fd else do
    in_conns (modify p λ c. record c { port = port; fd = some fd; activity = connecting })
    added ← add_conn ctl p accept_flags
    if added then pure p else (do set_conn p; refuse fd)

  -- What is done with a reply of `accept`; `again` is the next round of `while`.
  unfoldable pub answer : Replies → Prog World Ptr → AcceptReply → Prog World Ptr
  unfolding register
  answer env again (accepted fd port) = do p ← get_conn env.new env.junk; register fd port p
  answer env again interrupted = again
  answer env again refused = pure null

  -- `Server_Accept`, with a number of rounds for `while`, before call `n` of `accept`.
  unfoldable pub accept_conn : Replies → ℕ → ℕ → Prog World Ptr
  unfolding answer
  accept_conn env zero n = give_up
  accept_conn env (suc fuel) n = answer env (accept_conn env fuel (n + 1)) (env.accept n)

  -- What `epollEvent_callback` does with a connection, of which `val` is SO_ERROR.
  unfoldable pub serve : Replies → ℕ → Ptr → Mask → ℕ → Prog World (Unit {0})
  serve env fuel p m val = do
    in_conns (modify p λ c. record c { activity = if val == 0 then connected else conn_closed })
    if val == 0 then pure tt else (do c ← in_conns (load p); log_call (close_fd c.fd))
    if m.read then event_read ctl env.read fuel env.str env.item p else pure tt
    if m.write then event_write ctl env.write fuel p else pure tt

  -- `epollEvent_callback`; its only caller ignores the result.
  unfoldable pub callback : Ptr → Replies → ℕ → Ptr → Mask → Prog World (Unit {0})
  unfolding serve accept_conn with_value
  callback listener env fuel conn m = do
    p ← (if listener == conn then accept_conn env fuel 0 else pure conn)
    if p == null
        then pure tt
        else (do _ ← in_conns (load p); with_value env.so_error (serve env fuel p m))

  -- One round of `Server_Loop`.
  pub serve_events : Ptr → Replies → ℕ → Option (List Event) → Prog World (Option ℕ)
  unfolding callback
  serve_events listener env fuel ready = wait (some (callback listener env fuel)) ready

  -- `ServerSend`, of `len` bytes at `data`, with what `malloc` returns.
  unfoldable pub send_to : Ptr → Ptr → List ℕ → ℕ → Prog World (Unit {0})
  send_to str p bytes len = do
    dptr ← in_strings (malloc_str str (some bytes) len)
    in_conns (modify p λ c. record c { sendptr = dptr; sendlen = len })
    _ ← modify_conn ctl p write_only
    pure tt

  unfoldable pub server_send : Ptr → Ptr → List ℕ → ℕ → Prog World (Unit {0})
  unfolding send_to when_connected
  server_send str p bytes len =
      if p == null
      then pure tt
      else if ltb 0 len
      then (do c ← in_conns (load p); when_connected c.activity (send_to str p bytes len))
      else pure tt

-- How a round of `Server_Process` ends: waiting for the semaphore, with no item, or with one handled.
pub data Round : Type 0 where
  blocked idle handled : Round

-- `procread` of an item, and the release of its string and of the item.
unfoldable pub handle_item : (Ptr → Ptr → ℕ → Prog World (Unit {0})) → Item → Prog World Round
handle_item procread item = do
  procread item.connobj item.recvptr item.recvlen
  in_strings (free_str item.recvptr)
  pure handled

-- The queue, behind a `swait` that went through.
unfoldable pub take_item : (Ptr → Ptr → ℕ → Prog World (Unit {0})) → List Item → Prog World Round
unfolding handle_item
take_item procread [] w = done idle w
take_item procread (item ∷ rest) w = handle_item procread item (record w { received = rest })

-- `procread` is the client's: it is told the connection, the string and its length.
unfoldable pub process_round : (Ptr → Ptr → ℕ → Prog World (Unit {0})) → Prog World Round
unfolding take_item
process_round procread w =
    if w.posts == 0
    then done blocked w
    else take_item procread w.received (record w { posts = w.posts - 1 })
