-- ===== src/Server/Ownership/Steps.antt =====
-- Every step of the server keeps the strings where they belong, and does not crash.
use epoll_net.Base.{
  ℕ, ◌≡◌, refl, ◌∙◌, sym, arith, subst, Bool-cases, ◌⊎◌, inl, inr, Option, none, some, List, [],
  ◌∷◌, ◌++◌, ◌==◌,
}
use epoll_net.Memory.{Ptr, Store, Prog, write, load, modify, pure, resume, ◌>>◌}
use epoll_net.Memory.Ensures.{Ensures, ends}
use epoll_net.Memory.Holds.{Holds, load-done, modify-done, not_null, Holds-write, Holds-write_ne}
use epoll_net.World.{
  World, ConnObj, Item, Event, Call, close_fd, conn_closed, log_call, in_conns, in_conns-done,
}
use epoll_net.CStr.{block_of}
use epoll_net.ConnMgr.{close_conn, positive}
use epoll_net.Server.Ownership.{Owner, conn_at, Belongs, Items, Conns, Conns-write}

-- What `closeConnObj` does with a descriptor.
abbrev shut_fd : Ptr → Option ℕ → Prog World (Unit {0})
shut_fd p o = elim o [
  | none ↦ pure tt
  | some n ↦ do
    log_call (close_fd (some n))
    in_conns (modify p λ c. record c { activity = conn_closed; fd = none })
]

module _ (InUse : Ptr → Type 0) where
  abbrev pub Served : List Item → Type 0
  Served [] = Unit {0}
  Served (i ∷ is) = InUse i.connobj × Served is

  -- `hand` are the items that were taken from the queue and are not freed yet. The connections in use are
  -- in memory, each item is for one of them, and the events' array has room.
  pub record Sound (hand : List Item) (w : World) : Type 0 where
    pub own : Ptr → Owner
    pub number : ℕ
    pub items : Items w.strings own number (hand ++ w.received)
    pub conns : Conns w.strings own w.conns
    pub in_use : (p : Ptr) → InUse p → (c : ConnObj) × Holds w.conns p c
    pub served : Served (hand ++ w.received)
    pub event : Event
    pub behind : List Event
    pub slots_are : w.slots ≡ event ∷ behind

  pub still_held :
      {h : Store ConnObj} (p q : Ptr) {c : ConnObj} (d : ConnObj)
      → Holds h p c
      → (e : ConnObj) × Holds h q e
      → (e : ConnObj) × Holds (write h p (some d)) q e
  still_held {h} p q d here (e, there) = elim (Bool-cases (p == q)) [
    | inl same ↦
        (d, subst (λ r. Holds (write h p (some d)) r d) (ground arith) (Holds-write here d))
    | inr other ↦ (e, Holds-write_ne there (some d) (ground arith))
  ]

  module _ {hand : List Item} {w : World} (s : Sound hand w) (p : Ptr) {c : ConnObj}
      (held : Holds w.conns p c) where
    -- An object is written that sends what it sent, or nothing.
    pub Sound-write :
        (d : ConnObj) (pool : List Ptr) (calls : List Call)
        → d.sendptr ≡ c.sendptr
        → (d.sendlen ≡ c.sendlen) ⊎ (d.sendlen ≡ 0)
        → Sound hand (record w { conns = write w.conns p (some d); pool = pool; calls = calls })
    Sound-write d pool calls same_ptr (inl same_len) = record {
      own = s.own;
      number = s.number;
      items = s.items;
      conns =
          Conns-write w.strings s.own p d
            (λ some_bytes ne.
              subst (λ x. Belongs w.strings s.own (block_of x) (conn_at p)) (sym same_ptr)
                (s.conns p c held.object (omega (arith, some_bytes, same_len))
                  (λ e. ne (same_ptr ∙ e))))
            s.conns;
      in_use = λ q used. still_held p q d held (s.in_use q used);
      served = s.served;
      event = s.event;
      behind = s.behind;
      slots_are = s.slots_are;
    }
    Sound-write d pool calls same_ptr (inr nothing) = record {
      own = s.own;
      number = s.number;
      items = s.items;
      conns =
          Conns-write w.strings s.own p d
            (λ some_bytes ne. absurd (omega (arith, some_bytes, nothing))) s.conns;
      in_use = λ q used. still_held p q d held (s.in_use q used);
      served = s.served;
      event = s.event;
      behind = s.behind;
      slots_are = s.slots_are;
    }

  -- The semaphore and the calls so far play no role.
  pub Sound-calls :
      {hand : List Item} {w : World} (posts : ℕ) (calls : List Call)
      → Sound hand w
      → Sound hand (record w { posts = posts; calls = calls })
  Sound-calls posts calls s = record {
    own = s.own;
    number = s.number;
    items = s.items;
    conns = s.conns;
    in_use = s.in_use;
    served = s.served;
    event = s.event;
    behind = s.behind;
    slots_are = s.slots_are;
  }

  pub close_conn-Sound :
      {hand : List Item} {w : World} (p : Ptr) {c : ConnObj}
      → Sound hand w
      → Holds w.conns p c
      → Ensures (λ _ w'. Sound hand w' × ((d : ConnObj) × Holds w'.conns p d)) (close_conn p w)
  unfolding close_conn
  close_conn-Sound {hand} {w} p {c} s held =
      rw (not_null held, in_conns-done w (load p) (load-done held), resume)
        (closing (positive c.fd))
    where
      closing :
          (o : Option ℕ)
          → Ensures (λ _ w'. Sound hand w' × ((d : ConnObj) × Holds w'.conns p d)) (shut_fd p o w)
      closing none = ends (s, (c, held))
      closing (some n) =
          let shut = λ (c : ConnObj). record c { activity = conn_closed; fd = none } in
          rw
            (in_conns-done (record w { calls = w.calls ++ close_fd (some n) ∷ [] }) (modify p shut)
              (modify-done held shut))
            (ends (
              Sound-write s p held (shut c) w.pool (w.calls ++ close_fd (some n) ∷ []) refl
                  (inl refl),
              (shut c, Holds-write held (shut c)),
            ))
