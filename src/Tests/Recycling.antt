-- ===== src/Tests/Recycling.antt =====
-- A new pool that gets two objects and is asked for three.
use epoll_net.Base.{none, some, List, [], ◌∷◌, ◌≡◌, refl, arith, true}
use epoll_net.Memory.{write}
use epoll_net.Memory.Agrees.{Agrees}
use epoll_net.World.{World, ConnObj, connected}
use epoll_net.DataList.{Nodes}
use epoll_net.DataList.Chain.{Cells}
use epoll_net.DataQueue.{DataQueue}
use epoll_net.DataQueue.Laws.{linked}
use epoll_net.ConnMgr.Lifecycle.{Fresh, Limits, init_limit, limited, new_pool}
use epoll_net.ConnMgr.Linked.{Call, put, take, run, run_listed}
use epoll_net.ConnMgr.Linked.Agreement.{Same}
use epoll_net.ConnMgr.Linked.Creation.{HasQueue, run-new_pool}

abbrev object : ConnObj
object = record { fd = some 5; activity = connected; port = 80; sendptr = 0; sendlen = 0 }

abbrev two_objects : World
two_objects = record {
  conns = write (write (λ _. none) 10 (some object)) 20 (some object);
  strings = λ _. none;
  slots = [];
  pool = [];
  received = [];
  posts = 0;
  calls = [];
}

abbrev blocks : Fresh
blocks = record {
  connmgr = 100;
  queue_interface = 110;
  queue = 120;
  list = 130;
  locker_interface = 140;
  locker = 150;
}

abbrev no_nodes : Nodes
no_nodes p = none

-- The last object is new, at 30; the node at 1 is used twice.
abbrev script : List Call
script =
    put 1 10
    ∷ put 2 20
    ∷ put 3 0
    ∷ take 30 object
    ∷ put 1 10
    ∷ take 30 object
    ∷ take 30 object
    ∷ take 30 object
    ∷ []

run-new_pool_example :
    (q : DataQueue) × HasQueue (new_pool blocks) q
    × Agrees
        (λ _ w' s'. (left : Cells) × Same linked left w' s')
        (run_listed script two_objects)
        (run linked script (record { conns = two_objects.conns; memory = no_nodes; queue = q }))
run-new_pool_example =
    run-new_pool blocks script two_objects no_nodes (omega arith) (omega arith) (omega arith)
      (omega arith) refl
      (omega arith, refl, (omega arith, refl, (omega arith, refl, (omega arith, refl, tt))))

-- A soft limit of 8 MB is raised once.
abbrev small_stack : Limits
small_stack = record { before = some 8388608; raised = λ _. true; after = some 270532608 }

init_limit-small_stack :
    init_limit small_stack ≡ limited (270532608 ∷ []) (8388608 ∷ 270532608 ∷ [])
unfolding init_limit
init_limit-small_stack = refl
