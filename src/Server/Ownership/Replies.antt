-- ===== src/Server/Ownership/Replies.antt =====
-- `ServerSend` keeps the strings where they belong, and does not crash.
use epoll_net.Base.{
  ℕ, ◌^◌, ◌<◌, ◌≤◌, ◌≡◌, ◌≢◌, ap, refl, ◌∙◌, arith, subst, Bool, Bool-cases, inl, inr, none, some,
  List, ◌++◌, length, ltb, ==_refl, lt→ltb,
}
use epoll_net.Memory.{Ptr, null, done, write, load, modify, resume}
use epoll_net.Memory.Ensures.{Ensures, ends}
use epoll_net.Memory.Holds.{Holds, Holds-new, Holds-write, load-done, modify-done, not_null}
use epoll_net.World.{
  World, ConnObj, Activity, connecting, connected, conn_closed, Item, Call, in_conns-done,
}
use epoll_net.CStr.{CStr, create, malloc_str}
use epoll_net.CStr.Copies.{copied}
use epoll_net.Handlers.{ask, write_only}
use epoll_net.Handlers.Writing.{watched, ask-done}
use epoll_net.Server.{server_send, send_to, when_connected}
use epoll_net.Server.Reply.{loaded, server_send-queued}
use epoll_net.Server.Ownership.{
  IsFree, conn_at, Belongs, with_owner, Items-new, Conns-new, Conns-write,
}
use epoll_net.Server.Ownership.Steps.{Sound, still_held}
use epoll_net.Server.Ownership.Sends.{Sound-watched}

module _ (InUse : Ptr → Type 0) where
  module _ {hand : List Item} {w : World} (s : Sound InUse hand w) (p : Ptr) {c : ConnObj}
      (held : Holds w.conns p c) where
    -- A connection gets a new string to send.
    Sound-loaded :
        (str : Ptr) (string : CStr) (len : ℕ)
        → str ≢ null
        → w.strings str ≡ none
        → Sound InUse hand (record w {
          strings = write w.strings str (some string);
          conns = write w.conns p (some (loaded c str len));
        })
    Sound-loaded str string len ne fresh =
        let o = conn_at p in
        let own = with_owner s.own str o in
        let strings = write w.strings str (some string) in
        let mine : Belongs strings own str o = record {
          string = string;
          there = Holds-new w.strings str string ne;
          owned = rw (==_refl str) refl;
        } in
        record {
          own = own;
          number = s.number;
          items =
              Items-new w.strings s.own str fresh o string s.number (hand ++ w.received) s.items;
          conns =
              Conns-write strings own p (loaded c str len)
                (λ _ _. subst (λ b. Belongs strings own b o) (omega arith) mine)
                (Conns-new w.strings s.own str fresh o string s.conns);
          in_use = λ q used. still_held InUse p q (loaded c str len) held (s.in_use q used);
          served = s.served;
          event = s.event;
          behind = s.behind;
          slots_are = s.slots_are;
        }

  module _ (ctl : List Call → Call → Bool) {hand : List Item} {w : World} (s : Sound InUse hand w)
      (p : Ptr) (used : InUse p) where
    abbrev Kept : Unit {0} → World → Type 0
    Kept _ w' = Sound InUse hand w'

    abbrev conn : ConnObj
    conn = (s.in_use p used).0

    held : Holds w.conns p conn
    held = (s.in_use p used).1

    -- The connection without its string, where there is no memory for one.
    abbrev no_string : ℕ → ConnObj
    no_string len = record conn { sendptr = null; sendlen = len }

    Sound-no_memory :
        (len : ℕ) → Sound InUse hand (record w { conns = write w.conns p (some (no_string len)) })
    Sound-no_memory len = record {
      own = s.own;
      number = s.number;
      items = s.items;
      conns = Conns-write w.strings s.own p (no_string len) (λ _ ne. absurd (ne refl)) s.conns;
      in_use = λ q used. still_held InUse p q (no_string len) held (s.in_use q used);
      served = s.served;
      event = s.event;
      behind = s.behind;
      slots_are = s.slots_are;
    }

    send_to-no_memory :
        (bytes : List ℕ) (len : ℕ)
        → send_to ctl null p bytes len w
          ≡ done tt (
              watched
                (record w { conns = write w.conns p (some (no_string len)) })
                p
                (no_string len)
                s.behind
                write_only)
    unfolding send_to malloc_str ask create
    send_to-no_memory bytes len =
        let load_it = λ (c : ConnObj). record c { sendptr = null; sendlen = len } in
        let w1 = record w { conns = write w.conns p (some (no_string len)) } in
        rw (
          in_conns-done w (modify p load_it) (modify-done held load_it),
          resume,
          ask-done ctl w1 p write_only (Holds-write held (no_string len)) s.slots_are,
        )

    pub server_send-Sound :
        (str : Ptr) (bytes : List ℕ) (len : ℕ)
        → IsFree w str
        → len < 2 ^ 32
        → len ≤ length bytes
        → Ensures Kept (server_send ctl str p bytes len w)
    unfolding server_send when_connected
    server_send-Sound str bytes len free small enough = elim (Bool-cases (ltb 0 len)) [
      | inl bytes_left ↦ by_activity (ground arith) conn.activity refl
      | inr nothing ↦ rw (not_null held, nothing) (ends s)
    ]
      where
        by_state :
            {w' : World} (a : Activity)
            → 0 < len
            → conn.activity ≡ a
            → when_connected a (send_to ctl str p bytes len) w ≡ done tt w'
            → Sound InUse hand w'
            → Ensures Kept (server_send ctl str p bytes len w)
        by_state a pos state same sound =
            let go = ap (λ a. when_connected a (send_to ctl str p bytes len) w) state in
            rw
              (
                not_null held,
                lt→ltb 0 len pos,
                in_conns-done w (load p) (load-done held),
                resume,
                go,
                same,
              )
              (ends sound)

        by_activity :
            0 < len
            → (a : Activity) → conn.activity ≡ a
            → Ensures Kept (server_send ctl str p bytes len w)
        by_activity pos connecting state = by_state connecting pos state refl s
        by_activity pos connected state = elim free [
          | inl no_memory ↦
              by_state connected pos state
                (ap (λ a. send_to ctl a p bytes len w) no_memory ∙ send_to-no_memory bytes len)
                (Sound-watched InUse p (no_string len) s.behind write_only (Sound-no_memory len))
          | inr (ne, fresh) ↦
              rw
                (server_send-queued ctl p str bytes len ne pos small enough w held state
                  s.slots_are)
                (ends (
                  Sound-watched InUse p (loaded conn str len) s.behind write_only
                    (Sound-loaded s p held str (copied bytes len) len ne fresh)))
        ]
        by_activity pos conn_closed state = by_state conn_closed pos state refl s
