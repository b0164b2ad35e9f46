-- ===== src/Server/Starting.antt =====
-- What `Server_Create` and `StartServer` leave, and what `StartServer` does without a socket.
use epoll_net.Base.{
  ℕ, ◌<◌, Bool, none, some, List, [], ◌∷◌, ◌++◌, ◌≡◌, ◌≢◌, refl, if◌then◌else◌, ==_false,
}
use epoll_net.Memory.{Ptr, null, done, write, modify, resume, pure, ◌>>=◌, place}
use epoll_net.Memory.Holds.{Holds, modify-done, Holds-new}
use epoll_net.World.{World, ConnObj, Call, close_fd, conn_closed, in_conns-done}
use epoll_net.ConnMgr.{create_conn, reset, cleared}
use epoll_net.Server.Listen.{
  SocketReplies, listen, Makings, create, start_server, ServerObj, make_pool, add_tasks, no_tasks,
  process_name, loop_name,
}
use epoll_net.Server.Listening.{hung_up, listen-no_socket}

-- The object that listens, before `Server_Listen`, in a block that held `junk`.
abbrev pub newborn : ConnObj → ℕ → ConnObj
newborn junk port = record junk { activity = conn_closed; port = port; sendptr = null; sendlen = 0 }

module _ (env : Makings) (w : World) (port : ℕ) (server : env.server ≢ null)
    (connmgr : env.connmgr ≢ null) (connobj : env.connobj ≢ null) where
  -- The server, and the state in which it starts to listen.
  abbrev pub made : ServerObj
  made = record {
    connobj = env.connobj;
    serverthread = make_pool env.serverthread 1;
    datathread = make_pool env.datathread 5;
  }

  abbrev pub ready : World
  ready = record w {
    conns =
        write
          (write (write w.conns env.connobj (some (record env.junk { sendptr = null }))) env.connobj
            (some (newborn env.junk 0)))
          env.connobj (some (newborn env.junk port));
  }

  pub ready-Holds : Holds ready.conns env.connobj (newborn env.junk port)
  ready-Holds = Holds-new _ env.connobj (newborn env.junk port) connobj

  abbrev reborn : World
  reborn = record w {
    conns =
        write (write w.conns env.connobj (some (record env.junk { sendptr = null }))) env.connobj
          (some (newborn env.junk 0));
  }

  reborn-Holds : Holds reborn.conns env.connobj (newborn env.junk 0)
  reborn-Holds = Holds-new _ env.connobj (newborn env.junk 0) connobj

  born_block :
      create_conn env.connobj env.junk w.conns
      ≡ done env.connobj (write w.conns env.connobj (some (record env.junk { sendptr = null })))
  unfolding create_conn place
  born_block = rw (==_false env.connobj null connobj)

  create-made : create env w ≡ done (some made) reborn
  unfolding create reset
  create-made =
      let block = record env.junk { sendptr = null } in
      let w1 = record w { conns = write w.conns env.connobj (some block) } in
      let held = Holds-new w.conns env.connobj block connobj in
      rw (
        ==_false env.server null server,
        in_conns-done w (create_conn env.connobj env.junk) born_block,
        resume,
        ==_false env.connmgr null connmgr,
        ==_false env.connobj null connobj,
        in_conns-done w1 (modify env.connobj cleared) (modify-done held cleared),
      )

  pub start_server-listen :
      (ctl : List Call → Call → Bool) (replies : SocketReplies) (process loop : Ptr)
      (task : ℕ → Ptr)
      → start_server ctl env replies process loop task port w
        ≡ (do
          up ← listen ctl replies env.connobj
          if up
              then pure (
                  some (record {
                    server = made;
                    data_tasks =
                        add_tasks task process env.server process_name 5 (no_tasks made.datathread);
                    server_tasks =
                        add_tasks
                          (λ i. task 5)
                          loop
                          env.server
                          loop_name
                          1
                          (no_tasks made.serverthread);
                  }))
              else pure none)
            ready
  unfolding start_server
  start_server-listen ctl replies process loop task =
      let ask = λ (c : ConnObj). record c { port = port } in
      rw (
        create-made,
        resume,
        in_conns-done reborn (modify env.connobj ask) (modify-done reborn-Holds ask),
      )

  -- When `socket` fails, `StartServer` returns NULL, and closes the descriptor whose number happened to
  -- be in the block of the new connection object, if it is above 0: nothing wrote this field.
  pub start_server-sock_err :
      (ctl : List Call → Call → Bool) (replies : SocketReplies) (process loop : Ptr)
      (task : ℕ → Ptr) (n : ℕ)
      → replies.socket ≡ none
      → env.junk.fd ≡ some n
      → 0 < n
      → (w' : World) × (start_server ctl env replies process loop task port w ≡ done none w')
        × (w'.calls ≡ w.calls ++ close_fd (some n) ∷ [])
  start_server-sock_err ctl replies process loop task n got left pos =
      let out = listen-no_socket ctl replies ready env.connobj ready-Holds n got left pos in
      (
        hung_up ready env.connobj (newborn env.junk port) n,
        rw (start_server-listen ctl replies process loop task, out),
        refl,
      )
