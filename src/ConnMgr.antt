-- ===== src/ConnMgr.antt =====
-- connmgr.c, the pool of connection objects, and the parts of connobj.c that it uses. The pool's
-- queue is seen as the list of its objects, as DataQueue.Refine allows, and each function as one
-- step, since it holds the pool's lock. The pool is not NULL.
pub mod Recycle
pub mod Release
pub mod Lifecycle
pub mod Linked
use epoll_net.Base.{
  ℕ, Option, none, some, List, [], ◌∷◌, ◌++◌, ◌==◌, ltb, if◌then◌else◌, zero, suc, length,
}
use epoll_net.Memory.{Ptr, null, Store, Prog, done, pure, ◌>>=◌, ◌>>◌, load, place, modify, free}
use epoll_net.World.{World, ConnObj, conn_closed, in_conns, log_call, close_fd}

-- What `connobjReset` does to the fields of an object.
abbrev pub cleared : ConnObj → ConnObj
cleared c = record c { activity = conn_closed; sendlen = 0; port = 0 }

unfoldable pub reset : Ptr → Prog (Store ConnObj) (Unit {0})
reset p = if p == null then pure tt else modify p cleared

-- `CreateNewConnObj`, with what `malloc` returns and what the new block holds.
unfoldable pub create_conn : Ptr → ConnObj → Prog (Store ConnObj) Ptr
create_conn new junk =
    if new == null then pure null else do place new (record junk { sendptr = null }); pure new

pub push_pool : Ptr → Prog World (Unit {0})
push_pool p w = done tt (record w { pool = w.pool ++ p ∷ [] })

unfoldable pub set_conn : Ptr → Prog World (Unit {0})
unfolding reset push_pool
set_conn p = if p == null then pure tt else do in_conns (reset p); push_pool p

-- `CreateNewConnObj` and `connobjReset`
pub fresh_conn : Ptr → ConnObj → Prog (Store ConnObj) Ptr
unfolding create_conn reset
fresh_conn new junk = do p ← create_conn new junk; reset p; pure p

-- `getConn`; the last two arguments are for `malloc`. NULL is never in the pool.
unfoldable pub get_conn : Ptr → ConnObj → Prog World Ptr
unfolding fresh_conn
get_conn new junk w = elim (w.pool) [
  | [] ↦ in_conns (fresh_conn new junk) w
  | p ∷ rest ↦ done p (record w { pool = rest })
]

-- A descriptor above 0, which `closeConnObj` closes.
abbrev pub positive : Option ℕ → Option ℕ
positive none = none
positive (some n) = if ltb 0 n then some n else none

unfoldable pub close_conn : Ptr → Prog World (Unit {0})
close_conn p = if p == null then pure tt else do
  c ← in_conns (load p)
  elim (positive c.fd) [
    | none ↦ pure tt
    | some n ↦ do
      log_call (close_fd (some n))
      in_conns (modify p λ c. record c { activity = conn_closed; fd = none })
  ]

-- `pop` of the pool's queue, NULL when it is empty.
unfoldable pub pop_pool : Prog World Ptr
pop_pool w = elim (w.pool) [ [] ↦ done null w | p ∷ rest ↦ done p (record w { pool = rest }) ]

-- `for (; i < size; i++)` with the rounds left.
unfoldable pub release_conns : ℕ → Prog World (Unit {0})
unfolding pop_pool
release_conns zero = pure tt
release_conns (suc n) = do
  p ← pop_pool
  if p == null then pure tt else in_conns (free p)
  release_conns n

-- `ConnMgr_Destory`, but for the memory of the pool itself.
unfoldable pub destroy : Prog World (Unit {0})
unfolding release_conns
destroy w = (do release_conns (length w.pool); λ v. done tt (record v { pool = [] })) w
