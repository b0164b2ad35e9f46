-- ===== src/Server/Ownership/Callbacks.antt =====
-- `epollEvent_callback` on a connection keeps the strings where they belong, and does not crash.
use epoll_net.Base.{
  ℕ, ◌≡◌, ◌≢◌, refl, arith, true, false, Bool, Bool-cases, ◌⊎◌, inl, inr, Option, none, some, List,
  [], ◌∷◌, ◌++◌, ◌==◌, if◌then◌else◌, ==_false,
}
use epoll_net.Memory.{Ptr, write, load, modify, pure, resume}
use epoll_net.Memory.Ensures
use epoll_net.Memory.Ensures.{Ensures, ends}
use epoll_net.Memory.Holds.{Holds, load-done, modify-done, not_null, Holds-write}
use epoll_net.World.{World, ConnObj, Item, Mask, Call, conn_closed, close_fd, in_conns-done}
use epoll_net.Socket.{read_data, send_data}
use epoll_net.Handlers.{event_read, event_write, recv_buffer, recv_bytes}
use epoll_net.Server.{Replies, callback, serve, with_value}
use epoll_net.Server.Serving.{in_order, handlers, callback-confirmed}
use epoll_net.Server.Ownership.{IsFree}
use epoll_net.Server.Ownership.Steps.{Sound, Sound-write}
use epoll_net.Server.Ownership.Events.{Fits, event_read-Sound}
use epoll_net.Server.Ownership.Sends.{Ends, event_write-Sound}

-- The object of a connection with a pending error.
abbrev broken : ConnObj → ConnObj
broken c = record c { activity = conn_closed }

module _ (InUse : Ptr → Type 0) where
  handlers-Sound :
      (ctl : List Call → Call → Bool) (env : Replies) (fuel : ℕ) (p : Ptr) (m : Mask)
      {hand : List Item} {w : World}
      → InUse p
      → Sound InUse hand w
      → IsFree w env.str
      → Fits (read_data (some env.read) recv_bytes fuel recv_buffer)
      → ((len : ℕ) → Ends (send_data env.write (some len) fuel))
      → Ensures (λ _ w'. Sound InUse hand w') (handlers ctl env fuel p m w)
  handlers-Sound ctl env fuel p m {hand} {w} used s free fits end =
      Ensures.chain (reads (Bool-cases m.read)) λ _ w1 s1. writes s1 (Bool-cases m.write)
    where
      reads :
          (m.read ≡ true) ⊎ (m.read ≡ false)
          → Ensures
              (λ _ w'. Sound InUse hand w')
              ((if m.read then event_read ctl env.read fuel env.str env.item p else pure tt) w)
      reads (inl ready) =
          rw ready (event_read-Sound InUse ctl s p used env.read fuel env.str env.item free fits)
      reads (inr quiet) = rw quiet (ends s)

      writes :
          {w1 : World}
          → Sound InUse hand w1
          → (m.write ≡ true) ⊎ (m.write ≡ false)
          → Ensures
              (λ _ w'. Sound InUse hand w')
              ((if m.write then event_write ctl env.write fuel p else pure tt) w1)
      writes s1 (inl ready) = rw ready (event_write-Sound InUse ctl s1 p used env.write fuel end)
      writes s1 (inr quiet) = rw quiet (ends s1)

  pub callback-Sound :
      (ctl : List Call → Call → Bool) (listener : Ptr) (env : Replies) (fuel : ℕ) (p : Ptr)
      (m : Mask) {hand : List Item} {w : World}
      → InUse p
      → listener ≢ p
      → Sound InUse hand w
      → IsFree w env.str
      → Fits (read_data (some env.read) recv_bytes fuel recv_buffer)
      → ((len : ℕ) → Ends (send_data env.write (some len) fuel))
      → Ensures (λ _ w'. Sound InUse hand w') (callback ctl listener env fuel p m w)
  unfolding callback with_value serve
  callback-Sound ctl listener env fuel p m {hand} {w} used other s free fits end =
      by_value env.so_error refl
    where
      c : ConnObj
      c = (s.in_use p used).0

      held : Holds w.conns p c
      held = (s.in_use p used).1

      by_value :
          (o : Option ℕ)
          → env.so_error ≡ o
          → Ensures (λ _ w'. Sound InUse hand w') (callback ctl listener env fuel p m w)
      by_value none failed =
          rw
            (
              ==_false listener p other,
              resume,
              not_null held,
              in_conns-done w (load p) (load-done held),
              resume,
              failed,
            )
            (ends s)
      by_value (some val) got = elim (Bool-cases (val == 0)) [
        | inl zero_value ↦
            let good : env.so_error ≡ some 0 = ground (arith, got, zero_value) in
            rw (callback-confirmed ctl env fuel p w listener m held other good) (
              handlers-Sound ctl env fuel p m used
                (Sound-write InUse s p held (in_order c) w.pool w.calls refl (inl refl)) free fits
                end)
        | inr value ↦
            let w1 = record w { conns = write w.conns p (some (broken c)) } in
            let held1 = Holds-write held (broken c) in
            rw
              (
                ==_false listener p other,
                resume,
                not_null held,
                in_conns-done w (load p) (load-done held),
                resume,
                got,
                value,
                in_conns-done w (modify p broken) (modify-done held broken),
                resume,
                value,
                in_conns-done w1 (load p) (load-done held1),
                resume,
              )
              (handlers-Sound ctl env fuel p m used
                (Sound-write InUse s p held (broken c) w.pool (w.calls ++ close_fd c.fd ∷ []) refl
                  (inl refl))
                free fits end)
      ]
