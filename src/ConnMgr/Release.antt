-- ===== src/ConnMgr/Release.antt =====
-- `ConnMgr_Destory`, which gives back the objects that are in the pool.
use epoll_net.Base.{◌≡◌, refl, ap, none, List, [], ◌∷◌, length}
use epoll_net.Memory.{Ptr, Store, done, write, free}
use epoll_net.Memory.Holds.{Holds, free-done, not_null}
use epoll_net.World.{World, ConnObj, in_conns-done}
use epoll_net.ConnMgr.{release_conns, pop_pool, destroy}

-- Each of the objects is there, and is there still when those in front of it are given back: none
-- stands in the list twice.
abbrev pub AreHeld : Store ConnObj → List Ptr → Type 0
AreHeld h [] = Unit {0}
AreHeld h (p ∷ ps) = (c : ConnObj) × Holds h p c × AreHeld (write h p none) ps

-- A memory without these objects.
abbrev pub without : Store ConnObj → List Ptr → Store ConnObj
without h [] = h
without h (p ∷ ps) = without (write h p none) ps

release_conns-done :
    (ps : List Ptr) (w : World)
    → w.pool ≡ ps
    → AreHeld w.conns ps
    → release_conns (length ps) w ≡ done tt (record w { conns = without w.conns ps; pool = [] })
unfolding release_conns pop_pool
release_conns-done [] w queue held = ap (λ q. done tt (record w { pool = q })) queue
release_conns-done (p ∷ ps) w queue (c, here, rest) =
    let w1 = record w { pool = ps } in
    let w2 = record w1 { conns = write w.conns p none } in
    rw (
      queue,
      not_null here,
      in_conns-done w1 (free p) (free-done here),
      release_conns-done ps w2 refl rest,
    )

-- A pool whose objects are all in memory, each only once, is destroyed without a crash: its objects are
-- given back, nothing else is written, and the pool is empty.
pub destroy-AreHeld :
    (w : World)
    → AreHeld w.conns w.pool
    → destroy w ≡ done tt (record w { conns = without w.conns w.pool; pool = [] })
unfolding destroy
destroy-AreHeld w held = rw (release_conns-done w.pool w refl held)
