-- ===== src/Handlers/Writing.antt =====
-- `event_write`, by what `sendData` returns.
use epoll_net.Base.{
  ℕ, ◌<◌, none, some, List, [], ◌∷◌, ◌++◌, ◌≡◌, ◌≢◌, ==_false, lt→ltb, ◌==◌, Bool, ◌⊎◌, inl, inr,
  Bool-cases,
}
use epoll_net.Memory.{Ptr, null, Store, done, write, load, modify, resume}
use epoll_net.Memory.Holds.{Holds, load-done, modify-done, free-done, Holds-write}
use epoll_net.World.{World, ConnObj, Event, Mask, Call, ctl_mod, in_conns-done, in_strings-done}
use epoll_net.CStr.{CStr, free_str, block_of}
use epoll_net.Socket.{WriteReply, SendRun, Calls, returned, sent, send_data}
use epoll_net.Socket
use epoll_net.Epoll.{modify_conn, call_ctl, set_first, wanted}
use epoll_net.Handlers.{event_write, after_send, ask, read_only, write_only}

pub free_str-done :
    {h : Store CStr} (p : Ptr) {s : CStr}
    → p ≢ null
    → Holds h (block_of p) s
    → free_str p h ≡ done tt (write h (block_of p) none)
unfolding free_str
free_str-done p ne held = rw (==_false p null ne, free-done held)

-- A request to watch a connection: it overwrites the first event of the array, too.
abbrev pub watched : World → Ptr → ConnObj → List Event → Mask → World
watched w p c rest m = record w {
  slots = record { flags = wanted m; conn = p } ∷ rest;
  calls = w.calls ++ ctl_mod c.fd (record { flags = wanted m; conn = p }) ∷ [];
}

pub ask-done :
    (ctl : List Call → Call → Bool) (w : World) (p : Ptr) {c : ConnObj} {e : Event}
    {rest : List Event} (m : Mask)
    → Holds w.conns p c
    → w.slots ≡ e ∷ rest
    → ask ctl p m w ≡ done tt (watched w p c rest m)
unfolding ask modify_conn call_ctl set_first
ask-done ctl w p {c} {e} {rest} m held there =
    let w' = record w { slots = record { flags = wanted m; conn = p } ∷ rest } in
    rw (there, in_conns-done w' (load p) (load-done held))

module _ (ctl : List Call → Call → Bool) (w : World) (p : Ptr) {c : ConnObj}
    (held : Holds w.conns p c) (write_reply : ℕ → ℕ → ℕ → WriteReply) (fuel : ℕ) where
  -- A connection with no string to send, or none of its bytes, is left alone.
  pub event_write-idle :
      (c.sendptr ≡ null) ⊎ (c.sendlen ≡ 0) → event_write ctl write_reply fuel p w ≡ done tt w
  unfolding event_write
  event_write-idle (inl e) = rw (in_conns-done w (load p) (load-done held), resume, e)
  event_write-idle (inr e) = elim (Bool-cases (c.sendptr == null)) [
    | inl t ↦ rw (in_conns-done w (load p) (load-done held), resume, t)
    | inr f ↦ rw (in_conns-done w (load p) (load-done held), resume, f, e)
  ]

  module _ (pending : c.sendptr ≢ null) (some_bytes : 0 < c.sendlen) {e : Event} {rest : List Event}
      (there : w.slots ≡ e ∷ rest) where
    write-load :
        event_write ctl write_reply fuel p w
        ≡ after_send ctl p c (send_data write_reply (some c.sendlen) fuel) w
    unfolding event_write
    write-load = rw (
      in_conns-done w (load p) (load-done held),
      resume,
      ==_false c.sendptr null pending,
      lt→ltb 0 c.sendlen some_bytes,
    )

    -- The connection object with nothing left to send.
    abbrev pub emptied : ConnObj
    emptied = record c { sendptr = null; sendlen = 0 }

    -- A connection with bytes to send, by the result of `sendData`. 0: its string is freed, it has
    -- nothing left to send, and it is watched for reading. -2: it keeps its string, and is watched for
    -- writing. -1: it keeps its string, and is watched for reading. The request to watch it overwrites
    -- the first event of the array.
    pub event_write-returned :
        (calls : Calls)
        → ((s : CStr)
            → Holds w.strings (block_of c.sendptr) s
            → send_data write_reply (some c.sendlen) fuel ≡ returned sent calls
            → event_write ctl write_reply fuel p w
              ≡ done tt (
                  watched
                    (record w {
                      strings = write w.strings (block_of c.sendptr) none;
                      conns = write w.conns p (some emptied);
                    })
                    p
                    emptied
                    rest
                    read_only))
          × ((send_data write_reply (some c.sendlen) fuel ≡ returned Socket.SendCode.again calls
                → event_write ctl write_reply fuel p w ≡ done tt (watched w p c rest write_only))
              × (send_data write_reply (some c.sendlen) fuel ≡ returned Socket.SendCode.error calls
                  → event_write ctl write_reply fuel p w ≡ done tt (watched w p c rest read_only)))
    unfolding after_send
    event_write-returned calls = (
      λ s string out.
          (let freed =
              in_strings-done w (free_str c.sendptr) (free_str-done c.sendptr pending string) in
            let w1 = record w { strings = write w.strings (block_of c.sendptr) none } in
            let set =
              in_conns-done w1 (modify p (λ c. record c { sendptr = null; sendlen = 0 }))
                (modify-done held (λ c. record c { sendptr = null; sendlen = 0 })) in
            let w2 = record w1 { conns = write w.conns p (some emptied) } in
            rw (
              write-load,
              out,
              freed,
              resume,
              set,
              resume,
              ask-done ctl w2 p read_only (Holds-write held emptied) there,
            )),
      (
        λ out. rw (write-load, out, ask-done ctl w p write_only held there),
        λ out. rw (write-load, out, ask-done ctl w p read_only held there),
      ),
    )
