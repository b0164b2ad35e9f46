-- ===== src/ConnMgr/Recycle.antt =====
-- What a client of the pool sees: objects leave it in the order in which they came, with the fields
-- that `connobjReset` sets.
use epoll_net.Base.{some, List, [], ◌∷◌, ◌++◌, ◌≡◌, ◌≢◌, ap, ◌∙◌, ==_false}
use epoll_net.Memory.{
  Ptr, null, Prog, Outcome, Store, done, write, modify, place, pure, ◌>>=◌, ◌>>◌,
}
use epoll_net.Memory.Holds.{Holds, modify-done, not_null, Holds-write, Holds-new}
use epoll_net.World.{in_conns-done, World, ConnObj, in_conns}
use epoll_net.ConnMgr.{cleared, reset, set_conn, get_conn, create_conn, fresh_conn, push_pool}

-- The run ends with this result.
pub data Emits {A : Type 0} (a : A) : Outcome World A → Type 0 where
  emits : {w : World} → Emits a (done a w)

module _ (w : World) (p : Ptr) {c : ConnObj} (held : Holds w.conns p c) where
  pub set_conn-done :
      set_conn p w
      ≡ done tt (record w { conns = write w.conns p (some (cleared c)); pool = w.pool ++ p ∷ [] })
  unfolding set_conn push_pool
  set_conn-done = rw (not_null held, in_conns-done w (modify p cleared) (modify-done held cleared))

  -- An object is put into the pool and one is taken out: it is the one that waited longest, or the same
  -- one from an empty pool; the object put in is reset, and no memory is allocated.
  pub get_conn-set_conn :
      (first : Ptr) (rest : List Ptr) (new : Ptr) (junk : ConnObj)
      → w.pool ++ p ∷ [] ≡ first ∷ rest
      → (do set_conn p; get_conn new junk) w
        ≡ done first (record w { conns = write w.conns p (some (cleared c)); pool = rest })
  unfolding get_conn
  get_conn-set_conn first rest new junk queue = rw (set_conn-done, queue)

abbrev pub two_gets : Ptr → ConnObj → Prog World (Ptr × Ptr)
two_gets new junk = do a ← get_conn new junk; b ← get_conn new junk; pure (a, b)

-- An object that is put into an empty pool twice is given to two callers.
pub get_conn_twice :
    (w : World) (p : Ptr) {c : ConnObj} (new : Ptr) (junk : ConnObj)
    → Holds w.conns p c
    → w.pool ≡ []
    → Emits (p, p) ((do set_conn p; set_conn p; two_gets new junk) w)
unfolding get_conn
get_conn_twice w p {c} new junk held empty =
    let w1 = record w { conns = write w.conns p (some (cleared c)); pool = w.pool ++ p ∷ [] } in
    rw (set_conn-done w p held, set_conn-done w1 p (Holds-write held (cleared c)), empty) emits

pub get_conn-empty :
    (w : World) (new : Ptr) (junk : ConnObj)
    → w.pool ≡ []
    → get_conn new junk w ≡ in_conns (fresh_conn new junk) w
unfolding get_conn
get_conn-empty w new junk empty =
    ap
      (λ q. elim q [
        | [] ↦ in_conns (fresh_conn new junk) w
        | p ∷ rest ↦ done p (record w { pool = rest })
      ])
      empty

pub get_conn-cons :
    (w : World) (p : Ptr) (rest : List Ptr) (new : Ptr) (junk : ConnObj)
    → w.pool ≡ p ∷ rest
    → get_conn new junk w ≡ done p (record w { pool = rest })
unfolding get_conn
get_conn-cons w p rest new junk queue =
    ap
      (λ q. elim q [
        | [] ↦ in_conns (fresh_conn new junk) w
        | p ∷ rest ↦ done p (record w { pool = rest })
      ])
      queue

-- An empty pool gives a new object with nothing to send, reset; whatever its block held, the
-- descriptor included, is in the other fields.
pub get_conn-create_conn :
    (w : World) (new : Ptr) (junk : ConnObj)
    → w.pool ≡ []
    → new ≢ null
    → (h : Store ConnObj) × ((get_conn new junk w ≡ done new (record w { conns = h }))
        × Holds h new (cleared (record junk { sendptr = null })))
unfolding get_conn fresh_conn create_conn reset place
get_conn-create_conn w new junk empty ne =
    let blank = record junk { sendptr = null } in
    let h = write w.conns new (some blank) in
    let held : Holds h new blank = Holds-new w.conns new blank ne in
    let made : fresh_conn new junk w.conns ≡ done new (write h new (some (cleared blank))) =
      rw (==_false new null ne, ==_false new null ne, modify-done held cleared) in
    (
      write h new (some (cleared blank)),
      (
        get_conn-empty w new junk empty ∙ in_conns-done w (fresh_conn new junk) made,
        Holds-write held (cleared blank),
      ),
    )
