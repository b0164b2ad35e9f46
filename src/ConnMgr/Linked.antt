-- ===== src/ConnMgr/Linked.antt =====
-- `setConn` and `getConn` of connmgr.c as they are written, over a queue with its laws: what the pool is
-- when its queue is that of queue.c.
pub mod Agreement
pub mod Creation
use epoll_net.Base.{ℕ, Option, List, [], ◌∷◌, ◌++◌, ◌≡◌, ◌≢◌, false, ◌==◌, if◌then◌else◌}
use epoll_net.Memory.{Ptr, null, Store, Outcome, done, crash, running, Prog, pure, ◌>>=◌, ◌>>◌}
use epoll_net.World.{World, ConnObj}
use epoll_net.ConnMgr
use epoll_net.ConnMgr.{reset, fresh_conn}
use epoll_net.DataList.Chain.{Cells, has}
use epoll_net.DataQueue.Laws.{QueueLaws}

-- The objects, and the pool's queue in its memory.
pub record Pool (M Q : Type 0) : Type 0 where
  pub conns : Store ConnObj
  pub memory : M
  pub queue : Q

-- A client's calls; the first address of `put` is what `malloc` gives for the node of the queue, `take`
-- has the address and the contents of a new object's block.
pub data Call : Type 0 where
  put : Ptr → Ptr → Call
  take : Ptr → ConnObj → Call

module _ {M Q : Type 0} where
  -- A program on the objects.
  abbrev pub with_conns : {A : Type 0} → Pool M Q → Outcome (Store ConnObj) A → Outcome (Pool M Q) A
  with_conns s (done a h) = done a (record s { conns = h })
  with_conns s crash = crash
  with_conns s running = running

  abbrev pub on_conns : {A : Type 0} → Prog (Store ConnObj) A → Prog (Pool M Q) A
  on_conns m s = with_conns s (m s.conns)

  abbrev pub with_queue : {A : Type 0} → Pool M Q → Outcome M (A × Q) → Outcome (Pool M Q) A
  with_queue s (done (a, q) m) = done a (record s { memory = m; queue = q })
  with_queue s crash = crash
  with_queue s running = running

  module _ (i : QueueLaws M Q) where
    unfoldable pub push : Ptr → Ptr → Prog (Pool M Q) (Unit {0})
    push node p s = with_queue s ((do q ← i.push node s.queue p; pure (tt {0}, q)) s.memory)

    unfoldable pub pop : Prog (Pool M Q) Ptr
    pop s = with_queue s (i.pop s.queue s.memory)

    unfoldable pub set_conn : Ptr → Ptr → Prog (Pool M Q) (Unit {0})
    unfolding push
    set_conn node p = if p == null then pure tt else do on_conns (reset p); push node p

    unfoldable pub get_conn : Ptr → ConnObj → Prog (Pool M Q) Ptr
    unfolding pop
    get_conn new junk = do p ← pop; if p == null then on_conns (fresh_conn new junk) else pure p

    -- The calls in order, with what each returns, NULL for `setConn`.
    unfoldable pub run : List Call → Prog (Pool M Q) (List Ptr)
    unfolding set_conn get_conn
    run [] = pure []
    run (put node p ∷ calls) = do set_conn node p; rs ← run calls; pure (null ∷ rs)
    run (take new junk ∷ calls) = do p ← get_conn new junk; rs ← run calls; pure (p ∷ rs)

-- The same calls on the pool of World.
unfoldable pub run_listed : List Call → Prog World (List Ptr)
run_listed [] = pure []
run_listed (put node p ∷ calls) = do ConnMgr.set_conn p; rs ← run_listed calls; pure (null ∷ rs)
run_listed (take new junk ∷ calls) = do
  p ← ConnMgr.get_conn new junk
  rs ← run_listed calls
  pure (p ∷ rs)

-- The cells behind a `setConn`, and those behind a `getConn`.
abbrev pub put_in : Ptr → Ptr → Cells → Cells
put_in node p xs = if p == null then xs else xs ++ (node, p) ∷ []

abbrev pub taken_from : Cells → Cells
taken_from [] = []
taken_from (x ∷ xs) = xs

-- `malloc` behaves: the address of a node is not NULL and not that of a node still in the queue.
abbrev pub Allocated : Cells → List Call → Type 0
Allocated xs [] = Unit {0}
Allocated xs (put node p ∷ calls) =
    (node ≢ null) × (has node xs ≡ false) × Allocated (put_in node p xs) calls
Allocated xs (take new junk ∷ calls) = Allocated (taken_from xs) calls
