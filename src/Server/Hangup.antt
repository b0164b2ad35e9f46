-- ===== src/Server/Hangup.antt =====
-- `epollEvent_callback` on a connection that the peer has closed.
use epoll_net.Base.{
  ℕ, suc, ◌++◌, List, [], ◌∷◌, some, ◌≡◌, ◌≢◌, ◌∙◌, Bool, true, inr, refl, Bool-cases, inl,
}
use epoll_net.Memory.{Ptr, done, write, resume}
use epoll_net.Memory.Holds.{Holds, Holds-write}
use epoll_net.World.{World, ConnObj, connected, Mask, Call, ctl_del, close_fd}
use epoll_net.Socket.{count, read_data}
use epoll_net.ConnMgr.{cleared}
use epoll_net.Handlers.{event_write, recv_buffer, recv_bytes}
use epoll_net.Handlers.Reading.{closed_conn, event_read-closed}
use epoll_net.Handlers.Writing.{event_write-idle}
use epoll_net.Server.{Replies, callback}
use epoll_net.Server.Serving.{in_order, confirmed, handlers, callback-confirmed}

-- The object of a connection behind `getsockopt`, in good order, and then behind its end.
abbrev pub ended : ConnObj → ConnObj
ended c = cleared (closed_conn (record c { activity = connected }))

-- What is left of the state when the connection at `p` has ended.
abbrev pub hung_up : World → Ptr → ConnObj → ℕ → World
hung_up w p c k = record w {
  conns =
      write
        (write (write w.conns p (some (record c { activity = connected }))) p
          (some (closed_conn (record c { activity = connected }))))
        p (some (ended c));
  pool = w.pool ++ p ∷ [];
  calls = (w.calls ++ ctl_del c.fd ∷ []) ++ close_fd (some (suc k)) ∷ [];
}

module _ (ctl : List Call → Call → Bool) (env : Replies) (fuel : ℕ) (w : World) (p : Ptr)
    {c : ConnObj} (held : Holds w.conns p c) (k : ℕ) (fd : c.fd ≡ some (suc k)) (buffer : List ℕ)
    (eof : read_data (some env.read) recv_bytes fuel recv_buffer ≡ count 0 buffer) where
  quiet_write : event_write ctl env.write fuel p (hung_up w p c k) ≡ done tt (hung_up w p c k)
  quiet_write =
      let held' =
        Holds-write
          (Holds-write (Holds-write held (record c { activity = connected }))
            (closed_conn (record c { activity = connected })))
          (ended c) in
      event_write-idle ctl (hung_up w p c k) p held' env.write fuel (inr refl)

  handlers-closed :
      (m : Mask)
      → m.read ≡ true
      → handlers ctl env fuel p m (confirmed w p c) ≡ done tt (hung_up w p c k)
  handlers-closed m reads =
      let end =
        event_read-closed ctl (confirmed w p c) p (Holds-write held (in_order c)) env.read fuel
          env.str env.item k buffer fd eof in
      elim (Bool-cases m.write) [
        | inl writes ↦ rw (reads, end, resume, writes, quiet_write)
        | inr quiet ↦ rw (reads, end, resume, quiet)
      ]

  -- An event on a connection whose peer has closed it, in good order otherwise: whatever else it is
  -- ready for, it leaves epoll, its descriptor is closed, its object is back in the pool with nothing
  -- to send, and nothing is written to the socket. No string is freed: that of a reply that still waits
  -- stays in memory, and the object keeps the pointer to it with a length of 0, so that no write event
  -- sends or frees it. The connection is not the listening one, and its descriptor is above 0.
  pub callback-hung_up :
      (listener : Ptr) (m : Mask)
      → listener ≢ p
      → env.so_error ≡ some 0
      → m.read ≡ true
      → callback ctl listener env fuel p m w ≡ done tt (hung_up w p c k)
  callback-hung_up listener m other good reads =
      callback-confirmed ctl env fuel p w listener m held other good ∙ handlers-closed m reads
