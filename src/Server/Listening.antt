-- ===== src/Server/Listening.antt =====
-- What `Server_Listen` leaves when it succeeds, and when a call fails.
use epoll_net.Base.{
  ℕ, ◌<◌, ◌&&◌, Bool, true, false, none, some, List, [], ◌∷◌, ◌++◌, ◌≡◌, refl, Bool-cases, ◌⊎◌, inl,
  inr, lt→ltb,
}
use epoll_net.Memory.{Ptr, done, write, load, modify, resume}
use epoll_net.Memory.Holds.{Holds, load-done, modify-done, not_null, Holds-write}
use epoll_net.World.{
  World, ConnObj, Event, Call, ctl_add, close_fd, conn_closed, in_conns, in_conns-done,
}
use epoll_net.Epoll.{add_conn, call_ctl, set_first}
use epoll_net.ConnMgr.{close_conn, positive}
use epoll_net.Server.Listen.{listen_flags, SocketReplies, sock_err, bind_socket, listen}

-- The state behind `closeConnObj` on an open descriptor.
abbrev pub hung_up : World → Ptr → ConnObj → ℕ → World
hung_up w p c n = record w {
  conns = write w.conns p (some (record c { activity = conn_closed; fd = none }));
  calls = w.calls ++ close_fd (some n) ∷ [];
}

-- The state behind the registration of the socket that listens.
abbrev pub listening : World → Ptr → ConnObj → ℕ → List Event → World
listening w p c n rest = record w {
  conns = write w.conns p (some (record c { fd = some n }));
  slots = record { flags = listen_flags; conn = p } ∷ rest;
  calls = w.calls ++ ctl_add (some n) (record { flags = listen_flags; conn = p }) ∷ [];
}

sock_err-closes :
    (w : World) (p : Ptr) (c : ConnObj) (n : ℕ)
    → Holds w.conns p c
    → c.fd ≡ some n
    → 0 < n
    → sock_err p w ≡ done false (hung_up w p c n)
unfolding sock_err close_conn
sock_err-closes w p c n held fd pos =
    let shut = λ (c : ConnObj). record c { activity = conn_closed; fd = none } in
    let w1 = record w { calls = w.calls ++ close_fd (some n) ∷ [] } in
    let loaded = in_conns-done w (load p) (load-done held) in
    rw (
      loaded,
      resume,
      fd,
      not_null held,
      loaded,
      resume,
      fd,
      positive,
      lt→ltb 0 n pos,
      in_conns-done w1 (modify p shut) (modify-done held shut),
    )

module _ (ctl : List Call → Call → Bool) (env : SocketReplies) (w : World) (p : Ptr) {c : ConnObj}
    (held : Holds w.conns p c) where
  -- The object with its socket.
  abbrev pub with_socket : ℕ → World
  with_socket n = record w { conns = write w.conns p (some (record c { fd = some n })) }

  set_socket :
      (n : ℕ) → in_conns (modify p (λ c. record c { fd = some n })) w ≡ done tt (with_socket n)
  set_socket n =
      in_conns-done w (modify p (λ c. record c { fd = some n }))
        (modify-done held (λ c. record c { fd = some n }))

  pub listen-listening :
      (n : ℕ) {e : Event} {rest : List Event}
      → env.socket ≡ some n
      → (env.reuse && (env.bind && env.listen)) ≡ true
      → w.slots ≡ e ∷ rest
      → listen ctl env p w ≡ done true (listening w p c n rest)
  unfolding listen bind_socket add_conn call_ctl set_first
  listen-listening n {e} {rest} got ok there =
      let w1 = record (with_socket n) {
        slots = record { flags = listen_flags; conn = p } ∷ rest;
      } in
      let held' = Holds-write held (record c { fd = some n }) in
      rw (
        in_conns-done w (load p) (load-done held),
        resume,
        got,
        set_socket n,
        resume,
        ok,
        not_null held,
        there,
        resume,
        in_conns-done w1 (load p) (load-done held'),
      )

  pub listen-hung_up :
      (n : ℕ)
      → env.socket ≡ some n
      → 0 < n
      → (env.reuse && (env.bind && env.listen)) ≡ false
      → listen ctl env p w ≡ done false (hung_up (with_socket n) p (record c { fd = some n }) n)
  unfolding listen bind_socket
  listen-hung_up n got pos failed =
      let held' = Holds-write held (record c { fd = some n }) in
      rw (
        in_conns-done w (load p) (load-done held),
        resume,
        got,
        set_socket n,
        resume,
        failed,
        sock_err-closes (with_socket n) p (record c { fd = some n }) n held' refl pos,
      )

  pub listen-no_socket :
      (n : ℕ)
      → env.socket ≡ none
      → c.fd ≡ some n
      → 0 < n
      → listen ctl env p w ≡ done false (hung_up w p c n)
  unfolding listen
  listen-no_socket n got fd pos =
      rw (
        in_conns-done w (load p) (load-done held),
        resume,
        got,
        sock_err-closes w p c n held fd pos,
      )

  -- `Server_Listen` with a socket above 0. When SO_REUSEADDR, `bind` and `listen` succeed it returns 0, the
  -- listening object has the socket, and epoll was asked to watch it, whatever it answered. When one of
  -- them fails, it returns -1, the socket is closed once, the object has no descriptor, and epoll was not
  -- asked.
  pub listen-add_conn :
      (n : ℕ) {e : Event} {rest : List Event}
      → env.socket ≡ some n
      → 0 < n
      → w.slots ≡ e ∷ rest
      → (w' : World) × (((env.reuse && (env.bind && env.listen)) ≡ true)
            × (listen ctl env p w ≡ done true w')
            × Holds w'.conns p (record c { fd = some n })
            × (w'.calls
                ≡ w.calls ++ ctl_add (some n) (record { flags = listen_flags; conn = p }) ∷ [])
          ⊎ ((env.reuse && (env.bind && env.listen)) ≡ false)
            × (listen ctl env p w ≡ done false w')
            × Holds w'.conns p (record c { activity = conn_closed; fd = none })
            × (w'.calls ≡ w.calls ++ close_fd (some n) ∷ []))
  listen-add_conn n {e} {rest} got pos there =
      elim (Bool-cases (env.reuse && (env.bind && env.listen))) [
        | inl ok ↦ (
          listening w p c n rest,
          inl (
            ok,
            listen-listening n got ok there,
            Holds-write held (record c { fd = some n }),
            refl,
          ),
        )
        | inr failed ↦ (
          hung_up (with_socket n) p (record c { fd = some n }) n,
          inr (
            failed,
            listen-hung_up n got pos failed,
            Holds-write (Holds-write held (record c { fd = some n }))
                (record c { activity = conn_closed; fd = none }),
            refl,
          ),
        )
      ]
