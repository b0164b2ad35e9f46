-- ===== src/Handlers/Sending.antt =====
-- `event_write`, by what the kernel answers to `sendData`.
use epoll_net.Base.{ℕ, ◌<◌, none, some, List, ◌∷◌, ◌≡◌, ◌≢◌, Bool}
use epoll_net.Memory.{Ptr, null, write}
use epoll_net.Memory.Holds.{Holds}
use epoll_net.World.{World, ConnObj, Event, Call}
use epoll_net.CStr.{CStr, block_of}
use epoll_net.Socket.{WriteReply, would_block, failed}
use epoll_net.Handlers.{read_only, write_only}
use epoll_net.Handlers.Writing.{watched}

module _ (ctl : List Call → Call → Bool) (w : World) (p : Ptr) {c : ConnObj}
    (held : Holds w.conns p c) (write_reply : ℕ → ℕ → ℕ → WriteReply) (fuel : ℕ)
    (pending : c.sendptr ≢ null) (some_bytes : 0 < c.sendlen) {e : Event} {rest : List Event}
    (there : w.slots ≡ e ∷ rest) {s : CStr} (string : Holds w.strings (block_of c.sendptr) s) where
  -- The connection object with nothing left to send, and no string.
  abbrev pub sent_out : ConnObj
  sent_out = record c { sendptr = null; sendlen = 0 }

  -- What a reply leaves: of EAGAIN, of another error, and of some bytes.
  abbrev pub left_by : WriteReply → World
  left_by would_block = watched w p c rest write_only
  left_by failed = watched w p c rest read_only
  left_by _ =
      watched
        (record w {
          strings = write w.strings (block_of c.sendptr) none;
          conns = write w.conns p (some sent_out);
        })
        p sent_out rest read_only
