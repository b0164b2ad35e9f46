-- ===== src/Server/Serving.antt =====
-- `epollEvent_callback` on a connection in good order.
use epoll_net.Base.{ℕ, some, List, ◌≡◌, ◌≢◌, ==_false, ap, refl, Bool, if◌then◌else◌}
use epoll_net.Memory.{Ptr, Prog, write, load, modify, pure, resume, ◌>>◌}
use epoll_net.Memory.Holds.{Holds, load-done, modify-done, not_null}
use epoll_net.World.{World, ConnObj, connected, Mask, Call, in_conns-done}
use epoll_net.Handlers.{event_read, event_write}
use epoll_net.Server.{Replies, callback, serve, with_value}

abbrev pub in_order : ConnObj → ConnObj
in_order c = record c { activity = connected }

-- The state in which the handlers of an event find the connection.
abbrev pub confirmed : World → Ptr → ConnObj → World
confirmed w p c = record w { conns = write w.conns p (some (in_order c)) }

module _ (ctl : List Call → Call → Bool) (env : Replies) (fuel : ℕ) (p : Ptr) where
  abbrev pub handlers : Mask → Prog World (Unit {0})
  handlers m = do
    if m.read then event_read ctl env.read fuel env.str env.item p else pure tt
    if m.write then event_write ctl env.write fuel p else pure tt

  pub callback-confirmed :
      (w : World) {c : ConnObj} (listener : Ptr) (m : Mask)
      → Holds w.conns p c
      → listener ≢ p
      → env.so_error ≡ some 0
      → callback ctl listener env fuel p m w ≡ handlers m (confirmed w p c)
  unfolding callback with_value serve
  callback-confirmed w listener m held other good =
      let go = ap (λ o. with_value o (serve ctl env fuel p m) w) good in
      let set = in_conns-done w (modify p in_order) (modify-done held in_order) in
      rw
        (
          ==_false listener p other,
          resume,
          not_null held,
          in_conns-done w (load p) (load-done held),
          resume,
          go,
          set,
        )
        refl
