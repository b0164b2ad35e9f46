-- ===== src/Server/Reply.antt =====
-- `ServerSend`, and the write event behind it.
use epoll_net.Base.{
  ℕ, ◌+◌, ◌^◌, ◌<◌, ◌≤◌, none, some, List, ◌∷◌, ◌≡◌, ◌≢◌, refl, ap, sym, subst, arith, lt→ltb,
  length, Bool,
}
use epoll_net.Memory.{Ptr, null, done, write, load, modify, resume, ◌>>◌}
use epoll_net.Memory.Holds.{
  Holds, load-done, modify-done, not_null, Holds-write, Holds-write_ne, Holds-new,
}
use epoll_net.World.{World, ConnObj, Event, Call, connected, in_conns-done, in_strings-done}
use epoll_net.CStr.{block_of, header_bytes, malloc_str}
use epoll_net.CStr.Copies.{copied, create-done}
use epoll_net.Socket.{WriteReply, Calls, returned, sent, send_data}
use epoll_net.Epoll.{wanted}
use epoll_net.Handlers.{event_write, ask, read_only, write_only}
use epoll_net.Handlers.Writing.{watched, ask-done, event_write-returned}
use epoll_net.Server.{server_send, send_to, when_connected}

-- A connection with `len` bytes to send, in the block at `str`.
abbrev pub loaded : ConnObj → Ptr → ℕ → ConnObj
loaded c str len = record c { sendptr = str + header_bytes; sendlen = len }

-- The state behind `ServerSend`.
abbrev pub queued : World → Ptr → ConnObj → List Event → Ptr → List ℕ → ℕ → World
queued w p c rest str bytes len =
    watched
      (record w {
        strings = write w.strings str (some (copied bytes len));
        conns = write w.conns p (some (loaded c str len));
      })
      p (loaded c str len) rest write_only

module _ (ctl : List Call → Call → Bool) (p str : Ptr) (bytes : List ℕ) (len : ℕ) (ne : str ≢ null)
    (pos : 0 < len) (small : len < 2 ^ 32) (enough : len ≤ length bytes) where
  pub server_send-queued :
      (w : World) {c : ConnObj} {e : Event} {rest : List Event}
      → Holds w.conns p c
      → c.activity ≡ connected
      → w.slots ≡ e ∷ rest
      → server_send ctl str p bytes len w ≡ done tt (queued w p c rest str bytes len)
  unfolding server_send send_to malloc_str ask when_connected
  server_send-queued w {c} {e} {rest} held up there =
      let load_it = λ (c : ConnObj). record c { sendptr = str + header_bytes; sendlen = len } in
      let made =
        in_strings-done w (malloc_str str (some bytes) len)
          (create-done w.strings str bytes len ne pos small enough) in
      let w1 = record w { strings = write w.strings str (some (copied bytes len)) } in
      let set = in_conns-done w1 (modify p load_it) (modify-done held load_it) in
      let w2 = record w1 { conns = write w.conns p (some (loaded c str len)) } in
      let go = ap (λ a. when_connected a (send_to ctl str p bytes len) w) up in
      rw (
        not_null held,
        lt→ltb 0 len pos,
        in_conns-done w (load p) (load-done held),
        resume,
        go,
        made,
        resume,
        set,
        resume,
        ask-done ctl w2 p write_only (Holds-write held (loaded c str len)) there,
      )

  -- A reply to a connected client that the socket takes as a whole: the bytes are freed, the connection
  -- has nothing left to send, and it is watched for writing and then for reading again. `sendData`
  -- returns 0, `malloc` gives the string, `len` is positive and at most the number of bytes.
  pub event_write-server_send :
      (w : World) {c : ConnObj} {e : Event} {rest : List Event} (reply : ℕ → ℕ → ℕ → WriteReply)
      (fuel : ℕ) (calls : Calls)
      → Holds w.conns p c
      → c.activity ≡ connected
      → w.slots ≡ e ∷ rest
      → send_data reply (some len) fuel ≡ returned sent calls
      → (w' : World) × (((do server_send ctl str p bytes len; event_write ctl reply fuel p) w
            ≡ done tt w')
          × ((w'.strings str ≡ none)
              × (Holds w'.conns p (record c { sendptr = null; sendlen = 0 }))
              × (w'.slots ≡ record { flags = wanted read_only; conn = p } ∷ rest)))
  unfolding write
  event_write-server_send w {c} {e} {rest} reply fuel calls held up there out =
      let w1 = queued w p c rest str bytes len in
      let c1 = loaded c str len in
      let back : block_of (str + header_bytes) ≡ str = omega arith in
      let string = Holds-new w.strings str (copied bytes len) ne in
      let string' = subst (λ q. Holds w1.strings q (copied bytes len)) (sym back) string in
      let first = server_send-queued w held up there in
      let sends =
        event_write-returned ctl w1 p (Holds-write held c1) reply fuel (omega (arith)) pos
          {rest = rest} refl calls in
      let second = sends.0 (copied bytes len) string' out in
      let w2 = record w1 {
        strings = write w1.strings (block_of (str + header_bytes)) none;
        conns = write w1.conns p (some (record c { sendptr = null; sendlen = 0 }));
      } in
      (
        watched w2 p (record c { sendptr = null; sendlen = 0 }) rest read_only,
        (
          rw (first) second,
          (
            ground (arith, back),
            Holds-write (Holds-write held c1) (record c { sendptr = null; sendlen = 0 }),
            refl,
          ),
        ),
      )

-- A second reply before the first is written: the connection has the second only, and the block of
-- the first stays allocated, with nothing that points to it.
pub server_send_leaks :
    (ctl : List Call → Call → Bool) (p str str' : Ptr) (bytes : List ℕ) (len : ℕ)
    → str ≢ null
    → str' ≢ null
    → str ≢ str'
    → 0 < len
    → len < 2 ^ 32
    → len ≤ length bytes
    → (w : World) {c : ConnObj} {e : Event} {rest : List Event} → Holds w.conns p c
    → c.activity ≡ connected
    → w.slots ≡ e ∷ rest
    → (w' : World) × (((do server_send ctl str p bytes len; server_send ctl str' p bytes len) w
          ≡ done tt w')
        × (Holds w'.strings str (copied bytes len) × Holds w'.conns p (loaded c str' len)))
server_send_leaks ctl p str str' bytes len ne ne' apart pos small enough w {c} {e} {rest} held up
      there =
    let w1 = queued w p c rest str bytes len in
    let c1 = loaded c str len in
    let held' = Holds-write held c1 in
    let first = server_send-queued ctl p str bytes len ne pos small enough w held up there in
    let second =
      server_send-queued ctl p str' bytes len ne' pos small enough w1 {rest = rest} held' up refl in
    let kept =
      Holds-write_ne (Holds-new w.strings str (copied bytes len) ne) (some (copied bytes len))
        (λ e. apart (sym e)) in
    (
      queued w1 p c1 rest str' bytes len,
      (rw first second, (kept, Holds-write held' (loaded c1 str' len))),
    )
