-- ===== src/Server/Ownership/Sends.antt =====
-- `event_write` keeps the strings where they belong, and does not crash.
use epoll_net.Base.{
  ℕ, ◌<◌, ◌≡◌, ◌≢◌, refl, arith, Bool, Bool-cases, inl, inr, none, some, List, ◌++◌, ◌==◌, ltb,
}
use epoll_net.Memory.{Ptr, null, write}
use epoll_net.Memory.Ensures.{Ensures, ends}
use epoll_net.Memory.Holds.{Holds}
use epoll_net.World.{World, ConnObj, Item, Event, Mask, Call}
use epoll_net.CStr.{block_of}
use epoll_net.Socket.{WriteReply, SendRun, SendCode, Calls, returned, sent, send_data}
use epoll_net.Socket
use epoll_net.Handlers.{event_write, read_only, write_only}
use epoll_net.Handlers.Writing.{event_write-idle, event_write-returned, watched}
use epoll_net.Server.Ownership.{Items-sent, Conns-sent}
use epoll_net.Server.Ownership.Steps.{Sound, still_held}

-- `sendData` ends.
abbrev pub Ends : SendRun → Type 0
Ends (returned code calls) = Unit {0}
Ends Socket.SendRun.running = ⊥

module _ (InUse : Ptr → Type 0) where
  -- A connection is watched.
  pub Sound-watched :
      {hand : List Item} {w : World} (p : Ptr) (c : ConnObj) (rest : List Event) (m : Mask)
      → Sound InUse hand w
      → Sound InUse hand (watched w p c rest m)
  Sound-watched {hand} {w} p c rest m s = record {
    own = s.own;
    number = s.number;
    items = s.items;
    conns = s.conns;
    in_use = s.in_use;
    served = s.served;
    event = _;
    behind = rest;
    slots_are = refl;
  }

  module _ {hand : List Item} {w : World} (s : Sound InUse hand w) (p : Ptr) {c : ConnObj}
      (held : Holds w.conns p c) where
    -- A string was sent and is given back.
    Sound-sent :
        0 < c.sendlen
        → c.sendptr ≢ null
        → Sound InUse hand (record w {
          strings = write w.strings (block_of c.sendptr) none;
          conns = write w.conns p (some (record c { sendptr = null; sendlen = 0 }));
        })
    Sound-sent some_bytes ne =
        let mine = s.conns p c held.object some_bytes ne in
        let d = record c { sendptr = null; sendlen = 0 } in
        record {
          own = s.own;
          number = s.number;
          items =
              Items-sent w.strings s.own (block_of c.sendptr) p s.number (hand ++ w.received)
                mine.owned s.items;
          conns = Conns-sent w.strings s.own (block_of c.sendptr) p d mine.owned refl s.conns;
          in_use = λ q used. still_held InUse p q d held (s.in_use q used);
          served = s.served;
          event = s.event;
          behind = s.behind;
          slots_are = s.slots_are;
        }

  module _ (ctl : List Call → Call → Bool) {hand : List Item} {w : World} (s : Sound InUse hand w)
      (p : Ptr) (used : InUse p) where
    abbrev Kept : Unit {0} → World → Type 0
    Kept _ w' = Sound InUse hand w'

    abbrev conn : ConnObj
    conn = (s.in_use p used).0

    held : Holds w.conns p conn
    held = (s.in_use p used).1

    module _ (reply : ℕ → ℕ → ℕ → WriteReply) (fuel : ℕ) where
      module _ (pending : conn.sendptr ≢ null) (some_bytes : 0 < conn.sendlen) where
        write_code :
            (code : SendCode) (calls : Calls)
            → send_data reply (some conn.sendlen) fuel ≡ returned code calls
            → Ensures Kept (event_write ctl reply fuel p w)
        write_code sent calls out =
            let cases =
              event_write-returned ctl w p held reply fuel pending some_bytes s.slots_are calls in
            let mine = s.conns p conn held.object some_bytes pending in
            rw (cases.0 mine.string mine.there out) (
              ends (
                Sound-watched p (record conn { sendptr = null; sendlen = 0 }) s.behind read_only
                  (Sound-sent s p held some_bytes pending)))
        write_code Socket.SendCode.again calls out =
            let cases =
              event_write-returned ctl w p held reply fuel pending some_bytes s.slots_are calls in
            rw (cases.1.0 out) (ends (Sound-watched p conn s.behind write_only s))
        write_code Socket.SendCode.error calls out =
            let cases =
              event_write-returned ctl w p held reply fuel pending some_bytes s.slots_are calls in
            rw (cases.1.1 out) (ends (Sound-watched p conn s.behind read_only s))

        write_run :
            (r : SendRun)
            → send_data reply (some conn.sendlen) fuel ≡ r
            → Ends r
            → Ensures Kept (event_write ctl reply fuel p w)
        write_run (returned code calls) out end = write_code code calls out
        write_run Socket.SendRun.running out end = absurd end

      pub event_write-Sound :
          ((len : ℕ) → Ends (send_data reply (some len) fuel))
          → Ensures Kept (event_write ctl reply fuel p w)
      event_write-Sound all_end = elim (Bool-cases (conn.sendptr == null)) [
        | inl no_string ↦
            rw (event_write-idle ctl w p held reply fuel (inl (ground arith))) (ends s)
        | inr string ↦ elim (Bool-cases (ltb 0 conn.sendlen)) [
          | inl bytes ↦
              write_run (ground arith) (ground arith) (send_data reply (some conn.sendlen) fuel)
                refl (all_end conn.sendlen)
          | inr no_bytes ↦
              rw (event_write-idle ctl w p held reply fuel (inr (ground arith))) (ends s)
        ]
      ]
