-- ===== src/Server/Launch.antt =====
-- The tasks that `StartServer` gives to its two thread pools, and the end of a server.
use epoll_net.Base.{
  ℕ, zero, suc, ◌-◌, ◌<◌, ◌≤◌, ◌&&◌, ◌≡◌, ◌≢◌, refl, sym, ap, true, some, List, [], ◌∷◌, ◌++◌,
  arith, append-nil, append_assoc, replicate, length, ==_false, le→ltb, Bool,
}
use epoll_net.Memory.{Ptr, null, done, crash}
use epoll_net.World.{World, Event, Call, ctl_add}
use epoll_net.Threadpool.{Task}
use epoll_net.Threadpool.Lifecycle.{Threadpool, created, add_task, name_bytes}
use epoll_net.Threadpool.Teardown.{destroy-create}
use epoll_net.Server.Listen.{
  PoolMakings, ServerObj, clear, SocketReplies, Makings, make_pool, Started, add_tasks, no_tasks,
  start_server, process_name, loop_name, listen_flags,
}
use epoll_net.Server.Listening.{listening, listen-listening}
use epoll_net.Server.Starting.{made, newborn, ready, ready-Holds, start_server-listen}

-- The task for a function, with its name filled up with 0.
abbrev pub task_for : Ptr → Ptr → List ℕ → Task
task_for cb arg name = record {
  cb = cb;
  arg = arg;
  name = name ++ replicate (name_bytes - length name) 0;
}

module _ (task : ℕ → Ptr) (cb arg : Ptr) (name : List ℕ) (there : cb ≢ null)
    (short : length name ≤ name_bytes) where
  add_tasks-replicate :
      (n : ℕ) (tasks : List Task)
      → ((i : ℕ) → i < n → task i ≢ null)
      → add_tasks task cb arg name n (some tasks)
        ≡ some (tasks ++ replicate n (task_for cb arg name))
  unfolding add_tasks add_task
  add_tasks-replicate zero tasks memory = ap some (sym (append-nil tasks))
  add_tasks-replicate (suc n) tasks memory =
      let t = task_for cb arg name in
      rw (
        ==_false cb null there,
        ==_false (task n) null (memory n (omega arith)),
        le→ltb name_bytes (length name) short,
        add_tasks-replicate n (tasks ++ t ∷ []) (λ i lt. memory i (omega (arith, lt))),
        append_assoc tasks (t ∷ []) (replicate n t),
      )

-- When all memory, both pools and the socket are there, `StartServer` returns the server. Five tasks of
-- `Server_Process` were added to the pool of five threads, and one of `Server_Loop` to that of one, all for
-- this server, and epoll was asked to watch the socket.
pub start_server-add_tasks :
    (ctl : List Call → Call → Bool) (env : Makings) (replies : SocketReplies) (process loop : Ptr)
    (task : ℕ → Ptr) (port : ℕ) (w : World) (n : ℕ) {e : Event} {rest : List Event}
    {one five : Threadpool}
    → env.server ≢ null
    → env.connmgr ≢ null
    → env.connobj ≢ null
    → make_pool env.serverthread 1 ≡ created one
    → make_pool env.datathread 5 ≡ created five
    → replies.socket ≡ some n
    → (replies.reuse && (replies.bind && replies.listen)) ≡ true
    → w.slots ≡ e ∷ rest
    → process ≢ null
    → loop ≢ null
    → ((i : ℕ) → i < 6 → task i ≢ null)
    → (w' : World) × (st : Started) × (start_server ctl env replies process loop task port w
        ≡ done (some st) w')
      × (st.data_tasks ≡ some (replicate 5 (task_for process env.server process_name)))
      × (st.server_tasks ≡ some (task_for loop env.server loop_name ∷ []))
      × (w'.calls
          ≡ w.calls ++ ctl_add (some n) (record { flags = listen_flags; conn = env.connobj }) ∷ [])
start_server-add_tasks ctl env replies process loop task port w n {e} {rest} server connmgr connobj
      one five got ok there process_there loop_there memory =
    let out = start_server-listen env w port server connmgr connobj ctl replies process loop task in
    let begun = ready env w port server connmgr connobj in
    let up =
      listen-listening ctl replies begun env.connobj (ready-Holds env w port server connmgr connobj)
        n got ok there in
    (
      listening begun env.connobj (newborn env.junk port) n rest,
      record {
        server = made env w port server connmgr connobj;
        data_tasks =
            add_tasks task process env.server process_name 5
              (no_tasks (make_pool env.datathread 5));
        server_tasks =
            add_tasks (λ i. task 5) loop env.server loop_name 1
              (no_tasks (make_pool env.serverthread 1));
      },
      rw (out, up),
      rw (five) (
          add_tasks-replicate task process env.server process_name process_there (omega arith) 5 []
            (λ i lt. memory i (omega (arith, lt)))),
      rw (one) (
          add_tasks-replicate (λ i. task 5) loop env.server loop_name loop_there (omega arith) 1 []
            (λ i lt. memory 5 (omega arith))),
      refl,
    )

-- `Server_Clear` of a server whose five workers all started reads behind the end of their array, when the
-- signal succeeds.
pub clear-make_pool :
    (env : PoolMakings) (s : ServerObj) (w : World)
    → env.pool ≢ null
    → env.ids ≢ null
    → ((i : ℕ) → i < 5 → (id : ℕ) × (env.start i ≡ some id))
    → s.datathread ≡ make_pool env 5
    → clear 0 (some s) w ≡ crash
unfolding clear make_pool
clear-make_pool env s w pool ids starts there =
    let (made, got, count, out) =
      destroy-create env.start env.signal env.pool env.ids env.locker 5 pool ids (omega arith)
        (omega arith) starts in
    rw (there, got, out)
