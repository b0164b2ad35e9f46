-- ===== src/Server/Ownership/Events.antt =====
-- The handlers of events keep the strings where they belong, and do not crash.
use epoll_net.Base.{
  ℕ, zero, suc, ◌+◌, ◌^◌, ◌<◌, ◌≤◌, ◌≡◌, ◌≢◌, refl, arith, subst, Bool, Bool-cases, ◌==◌, inl, inr,
  none, some, List, [], ◌∷◌, ◌++◌, length, ==_refl, ==_false, append_assoc,
}
use epoll_net.Memory.{Ptr, null, write, resume}
use epoll_net.Memory.Ensures
use epoll_net.Memory.Ensures.{Ensures, ends}
use epoll_net.Memory.Holds.{Holds, Holds-new}
use epoll_net.World.{World, ConnObj, Item, Call, ctl_del, in_strings-done}
use epoll_net.CStr.{CStr, Strings, create, block_of, header_bytes, malloc_str}
use epoll_net.CStr.Copies.{copied, create-done}
use epoll_net.Socket.{ReadReply, ReadRun, count, no_connection, read_data}
use epoll_net.Socket
use epoll_net.ConnMgr.{cleared}
use epoll_net.ConnMgr.Recycle.{set_conn-done}
use epoll_net.Handlers.{event_read, receive, queue_item, recv_buffer, recv_bytes}
use epoll_net.Handlers.Reading.{read-load, del-done, event_read-count}
use epoll_net.Server.Ownership.{
  IsFree, Owner, nobody, item_no, Belongs, Items, Conns, with_owner, Items-new, Conns-new,
  Items-append,
}
use epoll_net.Server.Ownership.Steps.{Sound, Served, Sound-write, Sound-calls, close_conn-Sound}

-- `readData` ends, with a count that the buffer has.
abbrev pub Fits : ReadRun → Type 0
Fits (count n buffer) = (n ≤ length buffer) × (n < 2 ^ 32)
Fits Socket.ReadRun.again = Unit {0}
Fits no_connection = Unit {0}
Fits Socket.ReadRun.running = ⊥

module _ (InUse : Ptr → Type 0) where
  Served-append :
      (is : List Item) (i : Item) → Served InUse is → InUse i.connobj → Served InUse (is ++ i ∷ [])
  Served-append [] i all new = (new, tt)
  Served-append (j ∷ is) i (first, all) new = (first, Served-append is i all new)

  -- An item is queued for a connection.
  module _ {hand : List Item} {w : World} (s : Sound InUse hand w) (i : Item)
      (used : InUse i.connobj) where
    abbrev all : List Item
    all = hand ++ w.received

    pub Sound-queue :
        (own : Ptr → Owner) (strings : Strings) (posts : ℕ)
        → Items strings own s.number all
        → Conns strings own w.conns
        → (i.recvptr ≢ null
            → Belongs strings own (block_of i.recvptr) (item_no (s.number + length all)))
        → Sound InUse hand
            (record w { strings = strings; received = w.received ++ i ∷ []; posts = posts })
    Sound-queue own strings posts items conns mine =
        let order : all ++ i ∷ [] ≡ hand ++ (w.received ++ i ∷ []) =
          append_assoc hand w.received (i ∷ []) in
        record {
          own = own;
          number = s.number;
          items =
              subst (λ is. Items strings own s.number is) order
                (Items-append strings own s.number all i items mine);
          conns = conns;
          in_use = s.in_use;
          served = subst (λ is. Served InUse is) order (Served-append all i s.served used);
          event = s.event;
          behind = s.behind;
          slots_are = s.slots_are;
        }

  -- With a new string, and with none.
  Sound-item :
      {hand : List Item} {w : World} (s : Sound InUse hand w) (p str : Ptr) (string : CStr)
      (n posts : ℕ)
      → InUse p
      → str ≢ null
      → w.strings str ≡ none
      → Sound InUse hand (record w {
        strings = write w.strings str (some string);
        received =
            w.received ++ record { connobj = p; recvptr = str + header_bytes; recvlen = n } ∷ [];
        posts = posts;
      })
  Sound-item {hand} {w} s p str string n posts used ne fresh =
      let o = item_no (s.number + length (hand ++ w.received)) in
      let own = with_owner s.own str o in
      let strings = write w.strings str (some string) in
      let mine : Belongs strings own str o = record {
        string = string;
        there = Holds-new w.strings str string ne;
        owned = rw (==_refl str) refl;
      } in
      Sound-queue s (record { connobj = p; recvptr = str + header_bytes; recvlen = n }) used own
        strings posts
        (Items-new w.strings s.own str fresh o string s.number (hand ++ w.received) s.items)
        (Conns-new w.strings s.own str fresh o string s.conns)
        (λ _. subst (λ b. Belongs strings own b o) (omega arith) mine)

  -- A new string that nothing points to: it is nobody's.
  Sound-string :
      {hand : List Item} {w : World} (s : Sound InUse hand w) (str : Ptr) (string : CStr)
      → w.strings str ≡ none
      → Sound InUse hand (record w { strings = write w.strings str (some string) })
  Sound-string {hand} {w} s str string fresh = record {
    own = with_owner s.own str nobody;
    number = s.number;
    items = Items-new w.strings s.own str fresh nobody string s.number (hand ++ w.received) s.items;
    conns = Conns-new w.strings s.own str fresh nobody string s.conns;
    in_use = s.in_use;
    served = s.served;
    event = s.event;
    behind = s.behind;
    slots_are = s.slots_are;
  }

  Sound-no_string :
      {hand : List Item} {w : World} (s : Sound InUse hand w) (p : Ptr) (n posts : ℕ)
      → InUse p
      → Sound InUse hand (record w {
        received = w.received ++ record { connobj = p; recvptr = null; recvlen = n } ∷ [];
        posts = posts;
      })
  Sound-no_string {hand} {w} s p n posts used =
      Sound-queue s (record { connobj = p; recvptr = null; recvlen = n }) used s.own w.strings posts
        s.items s.conns (λ ne. absurd (ne refl))

  module _ (ctl : List Call → Call → Bool) {hand : List Item} {w : World} (s : Sound InUse hand w)
      (p : Ptr) (used : InUse p) where
    pub event_read-Sound :
        (read : ℕ → ReadReply) (fuel : ℕ) (str item : Ptr)
        → IsFree w str
        → Fits (read_data (some read) recv_bytes fuel recv_buffer)
        → Ensures (λ _ w'. Sound InUse hand w') (event_read ctl read fuel str item p w)
    unfolding receive queue_item malloc_str create
    event_read-Sound read fuel str item free fits =
        by_run (read_data (some read) recv_bytes fuel recv_buffer) refl fits
      where
        c : ConnObj
        c = (s.in_use p used).0

        held : Holds w.conns p c
        held = (s.in_use p used).1

        by_run :
            (r : ReadRun)
            → read_data (some read) recv_bytes fuel recv_buffer ≡ r
            → Fits r
            → Ensures (λ _ w'. Sound InUse hand w') (event_read ctl read fuel str item p w)
        by_run (count zero buffer) got (enough, small) =
            rw (read-load ctl w p held read fuel str item, got, del-done ctl w p held, resume)
              (Ensures.chain
                (close_conn-Sound InUse p
                  (Sound-calls InUse w.posts (w.calls ++ ctl_del c.fd ∷ []) s) held)
                λ _ w1 (s1, (d, held1)). rw (set_conn-done w1 p held1) (
                  ends (
                    Sound-write InUse s1 p held1 (cleared d) (w1.pool ++ p ∷ []) w1.calls refl
                      (inr refl))))
        by_run (count (suc n) buffer) got (enough, small) = elim (Bool-cases (item == null)) [
          | inl no_item ↦ elim free [
            | inl no_memory ↦
                rw (read-load ctl w p held read fuel str item, got, no_memory, no_item) (ends s)
            | inr (ne, fresh) ↦
                rw
                  (
                    read-load ctl w p held read fuel str item,
                    got,
                    in_strings-done w (malloc_str str (some buffer) (suc n))
                        (create-done w.strings str buffer (suc n) ne (omega arith) small enough),
                    resume,
                    no_item,
                  )
                  (ends (Sound-string s str (copied buffer (suc n)) fresh))
          ]
          | inr some_item ↦
              let ne' : item ≢ null = ground arith in
              elim free [
                | inl no_memory ↦
                    rw
                      (
                        read-load ctl w p held read fuel str item,
                        got,
                        no_memory,
                        ==_false item null ne',
                      )
                      (ends (Sound-no_string s p (suc n) (w.posts + 1) used))
                | inr (ne, fresh) ↦
                    rw
                      (event_read-count ctl w p held read fuel str item n buffer small enough ne ne'
                        got)
                      (ends (
                        Sound-item s p str (copied buffer (suc n)) (suc n) (w.posts + 1) used ne
                          fresh))
              ]
        ]
        by_run Socket.ReadRun.again got fits =
            rw (read-load ctl w p held read fuel str item, got) (ends s)
        by_run no_connection got fits = rw (read-load ctl w p held read fuel str item, got) (ends s)
        by_run Socket.ReadRun.running got fits = absurd fits
