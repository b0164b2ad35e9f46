-- ===== src/Server/Listen.antt =====
-- `Server_Create`, `Server_Listen`, `StartServer` and `Server_Clear` of server.c. The options of the
-- socket and the text of its address are left out, and the interfaces other than the pools are there.
use epoll_net.Base.{
  ℕ, zero, suc, Bool, true, false, ◌&&◌, Option, none, some, List, [], ◌∷◌, ◌==◌, if◌then◌else◌,
}
use epoll_net.Memory.{Ptr, null, Prog, crash, pure, ◌>>=◌, ◌>>◌, load, modify, free}
use epoll_net.World.{World, ConnObj, Call, Flags, in_conns}
use epoll_net.Epoll.{add_conn}
use epoll_net.ConnMgr.{create_conn, reset, close_conn}
use epoll_net.ConnMgr
use epoll_net.Threadpool.{Task}
use epoll_net.Threadpool.Lifecycle.{
  Created, no_memory, given_up, created, AddedTask, refused, name_too_long, queued, Destroyed,
  no_pool, not_signalled, out_of_bounds, not_written, joined, Threadpool,
}
use epoll_net.Threadpool.Lifecycle

-- EPOLLIN
abbrev pub listen_flags : Flags
listen_flags = record {
  inp = true;
  out = false;
  err = false;
  hup = false;
  rdhup = false;
  edge = false;
}

-- What `socket` gives, `none` for -1, and whether SO_REUSEADDR, `bind` and `listen` succeed.
pub record SocketReplies : Type 0 where
  pub socket : Option ℕ
  pub reuse : Bool
  pub bind : Bool
  pub listen : Bool

-- `sock_err` of `Server_Listen`
unfoldable pub sock_err : Ptr → Prog World Bool
sock_err p = do
  c ← in_conns (load p)
  elim (c.fd) [ none ↦ pure tt | some fd ↦ close_conn p ]
  pure false

module _ (ctl : List Call → Call → Bool) (env : SocketReplies) (p : Ptr) where
  -- The calls on a new socket; that epoll takes it is not asked.
  unfoldable pub bind_socket : ℕ → Prog World Bool
  unfolding sock_err
  bind_socket fd = do
    in_conns (modify p λ c. record c { fd = some fd })
    if env.reuse && (env.bind && env.listen)
        then (do _ ← add_conn ctl p listen_flags; pure true)
        else sock_err p

  -- `Server_Listen`: `true` is 0, `false` is -1.
  unfoldable pub listen : Prog World Bool
  unfolding bind_socket sock_err
  listen = do
    _ ← in_conns (load p)
    elim (env.socket) [ none ↦ sock_err p | some fd ↦ bind_socket fd ]

-- `struct tagServerObj`, without what is modelled by the state: the threads, and the connection object
-- that listens.
pub record ServerObj : Type 0 where
  pub connobj : Ptr
  pub serverthread : Created
  pub datathread : Created

-- What the system gives to one `Threadpool_Create`.
pub record PoolMakings : Type 0 where
  pub pool : Ptr
  pub ids : Ptr
  pub locker : Ptr
  pub start : ℕ → Option ℕ
  pub signal : ℕ

unfoldable pub make_pool : PoolMakings → ℕ → Created
make_pool env n = Lifecycle.create env.start env.signal env.pool env.ids env.locker n

-- What it gives to `Server_Create`: the addresses from `malloc` for the server, the manager and the
-- connection object, what the block of that one holds, and the two pools.
pub record Makings : Type 0 where
  pub server : Ptr
  pub connmgr : Ptr
  pub connobj : Ptr
  pub junk : ConnObj
  pub serverthread : PoolMakings
  pub datathread : PoolMakings

unfoldable pub create : Makings → Prog World (Option ServerObj)
unfolding make_pool
create env = if env.server == null then pure none else (do
  p ← in_conns (create_conn env.connobj env.junk)
  if env.connmgr == null then (λ _. crash) else in_conns (reset p)
  pure (
      some (record {
        connobj = p;
        serverthread = make_pool env.serverthread 1;
        datathread = make_pool env.datathread 5;
      })))

-- "Server_Process" and "Server_Loop"
abbrev pub process_name : List ℕ
process_name = 83 ∷ 101 ∷ 114 ∷ 118 ∷ 101 ∷ 114 ∷ 95 ∷ 80 ∷ 114 ∷ 111 ∷ 99 ∷ 101 ∷ 115 ∷ 115 ∷ []

abbrev pub loop_name : List ℕ
loop_name = 83 ∷ 101 ∷ 114 ∷ 118 ∷ 101 ∷ 114 ∷ 95 ∷ 76 ∷ 111 ∷ 111 ∷ 112 ∷ []

-- The tasks that were ever added to a pool, `none` if there is no pool.
abbrev pub no_tasks : Created → Option (List Task)
no_tasks no_memory = none
no_tasks (given_up d) = none
no_tasks (created pool) = some []

abbrev pub tasks_after : Option (List Task) → AddedTask → Option (List Task)
tasks_after tasks refused = tasks
tasks_after tasks name_too_long = tasks
tasks_after tasks (queued tasks') = some tasks'

-- Calls of `Threadpool_Addtask`, whose results are not looked at; `task i` is what `malloc` returns.
unfoldable pub add_tasks :
    (ℕ → Ptr) → Ptr → Ptr → List ℕ → ℕ → Option (List Task) → Option (List Task)
add_tasks task cb arg name zero tasks = tasks
add_tasks task cb arg name (suc n) tasks =
    add_tasks task cb arg name n (tasks_after tasks (Lifecycle.add_task tasks (task n) cb arg name))

-- A server with the tasks of its two pools.
pub record Started : Type 0 where
  pub server : ServerObj
  pub data_tasks : Option (List Task)
  pub server_tasks : Option (List Task)

-- `StartServer`; `process` and `loop` are the addresses of the two functions, and `task` what `malloc`
-- returns for the tasks.
unfoldable pub start_server :
    (List Call → Call → Bool)
    → Makings
    → SocketReplies
    → Ptr
    → Ptr
    → (ℕ → Ptr)
    → ℕ
    → Prog World (Option Started)
unfolding create listen add_tasks
start_server ctl env replies process loop task port = do
  made ← create env
  elim made [
    | none ↦ pure none
    | some server ↦ do
      in_conns (modify server.connobj λ c. record c { port = port })
      up ← listen ctl replies server.connobj
      if up
          then pure (
              some (record {
                server = server;
                data_tasks =
                    add_tasks task process env.server process_name 5 (no_tasks server.datathread);
                server_tasks =
                    add_tasks (λ i. task 5) loop env.server loop_name 1
                      (no_tasks server.serverthread);
              }))
          else pure none
  ]

-- `Threadpool_Destroy` of a pool or of NULL, which crashes when it reads what it may not.
abbrev pub survived : Destroyed → Prog World (Unit {0})
survived no_pool = pure tt
survived not_signalled = pure tt
survived out_of_bounds = λ _. crash
survived not_written = λ _. crash
survived (joined ids) = pure tt

abbrev pub pool_of : Created → Option Threadpool
pool_of no_memory = none
pool_of (given_up d) = none
pool_of (created pool) = some pool

-- `Server_Clear`, with the replies to the signals, but for the memory of epoll's side and of the locks.
unfoldable pub clear : ℕ → Option ServerObj → Prog World (Unit {0})
clear reply none = pure tt
clear reply (some s) = do
  survived (Lifecycle.destroy reply (pool_of s.datathread))
  survived (Lifecycle.destroy reply (pool_of s.serverthread))
  ConnMgr.destroy
  if s.connobj == null then pure tt else in_conns (free s.connobj)
