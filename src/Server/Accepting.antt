-- ===== src/Server/Accepting.antt =====
-- `Server_Accept`, and what is never lost: a descriptor is registered or closed.
use epoll_net.Base.{
  ℕ, zero, suc, ◌+◌, ◌<◌, some, List, [], ◌∷◌, ◌++◌, ◌≡◌, ◌≢◌, refl, ap, ◌∙◌, subst, arith,
  ==_false, Bool, true, false, Bool-cases, ◌⊎◌, inl, inr,
}
use epoll_net.Memory.{Ptr, null, done, write, load, modify, resume, ◌>>=◌}
use epoll_net.Memory.Holds.{Holds, load-done, modify-done, not_null, Holds-write}
use epoll_net.World.{
  World, ConnObj, Event, Call, ctl_add, close_fd, connecting, in_conns, in_conns-done,
}
use epoll_net.Epoll.{add_conn, call_ctl, set_first}
use epoll_net.ConnMgr.{cleared, get_conn}
use epoll_net.ConnMgr.Recycle.{get_conn-cons, set_conn-done}
use epoll_net.Server.{
  accepted, interrupted, Replies, accept_flags, refuse, register, answer, accept_conn,
}

-- The object of a connection that was just accepted.
abbrev pub fresh : ConnObj → ℕ → ℕ → ConnObj
fresh c fd port = record c { port = port; fd = some fd; activity = connecting }

-- The event that it is registered with.
abbrev pub watch : Ptr → Event
watch p = record { flags = accept_flags; conn = p }

add-done :
    (ctl : List Call → Call → Bool) (w : World) (p : Ptr) {c : ConnObj} {e : Event}
    {rest : List Event}
    → Holds w.conns p c
    → w.slots ≡ e ∷ rest
    → add_conn ctl p accept_flags w
      ≡ done
          (ctl w.calls (ctl_add c.fd (watch p)))
          (record w { slots = watch p ∷ rest; calls = w.calls ++ ctl_add c.fd (watch p) ∷ [] })
unfolding add_conn call_ctl set_first
add-done ctl w p {c} {e} {rest} held there =
    let w' = record w { slots = watch p ∷ rest } in
    rw (not_null held, there, in_conns-done w' (load p) (load-done held))

module _ (ctl : List Call → Call → Bool) (w : World) (p : Ptr) {c : ConnObj} {e : Event}
    {rest : List Event} (held : Holds w.conns p c) (there : w.slots ≡ e ∷ rest) (fd port : ℕ) where
  abbrev added : World
  added = record w {
    conns = write w.conns p (some (fresh c fd port));
    slots = watch p ∷ rest;
    calls = w.calls ++ ctl_add (some fd) (watch p) ∷ [];
  }

  set-done :
      in_conns (modify p (λ c. fresh c fd port)) w
      ≡ done tt (record w { conns = write w.conns p (some (fresh c fd port)) })
  set-done =
      in_conns-done w (modify p (λ c. fresh c fd port)) (modify-done held (λ c. fresh c fd port))

  ctl-done :
      add_conn ctl p accept_flags (record w { conns = write w.conns p (some (fresh c fd port)) })
      ≡ done (ctl w.calls (ctl_add (some fd) (watch p))) added
  ctl-done =
      add-done ctl (record w { conns = write w.conns p (some (fresh c fd port)) }) p
        (Holds-write held (fresh c fd port)) there

  register-true :
      ctl w.calls (ctl_add (some fd) (watch p)) ≡ true → register ctl fd port p w ≡ done p added
  unfolding register
  register-true ok = rw (not_null held, set-done, resume, ctl-done, resume, ok)

  register-false :
      ctl w.calls (ctl_add (some fd) (watch p)) ≡ false
      → fd ≢ 0
      → register ctl fd port p w
        ≡ done null (record added {
          conns = write added.conns p (some (cleared (fresh c fd port)));
          pool = w.pool ++ p ∷ [];
          calls = added.calls ++ close_fd (some fd) ∷ [];
        })
  unfolding register refuse
  register-false failed ne =
      let back = set_conn-done added p (Holds-write held (fresh c fd port)) in
      rw (not_null held, set-done, resume, ctl-done, resume, failed, back, ==_false fd 0 ne)

retry :
    (ctl : List Call → Call → Bool) (env : Replies) (fuel n : ℕ) (w : World)
    → env.accept n ≡ interrupted
    → accept_conn ctl env (suc fuel) n w ≡ accept_conn ctl env fuel (n + 1) w
unfolding accept_conn answer
retry ctl env fuel n w reply = ap (λ r. answer ctl env (accept_conn ctl env fuel (n + 1)) r w) reply

-- Calls of `accept` that are interrupted are repeated.
skip :
    (ctl : List Call → Call → Bool) (env : Replies) (k fuel n : ℕ) (w : World)
    → ((i : ℕ) → i < k → env.accept (n + i) ≡ interrupted)
    → accept_conn ctl env (k + fuel) n w ≡ accept_conn ctl env fuel (n + k) w
skip ctl env zero fuel n w retried =
    let e : fuel ≡ 0 + fuel = omega arith in
    let e' : n ≡ n + 0 = omega arith in
    subst (λ j. accept_conn ctl env j n w ≡ accept_conn ctl env fuel (n + 0) w) e
      (ap (λ j. accept_conn ctl env fuel j w) e')
skip ctl env (suc k) fuel n w retried =
    let e : suc (k + fuel) ≡ suc k + fuel = omega arith in
    let e' : n + 1 + k ≡ n + suc k = omega arith in
    let here : env.accept n ≡ interrupted =
      subst (λ j. env.accept j ≡ interrupted) (omega arith) (retried 0 (omega arith)) in
    let later : (i : ℕ) → i < k → env.accept (n + 1 + i) ≡ interrupted = λ i below.
      subst (λ j. env.accept j ≡ interrupted) (omega arith)
        (retried (suc i) (omega (arith, below))) in
    subst (λ j. accept_conn ctl env j n w ≡ accept_conn ctl env fuel (n + suc k) w) e
      (retry ctl env (k + fuel) n w here
        ∙ (skip ctl env k fuel (n + 1) w later ∙ ap (λ j. accept_conn ctl env fuel j w) e'))

accept-step :
    (ctl : List Call → Call → Bool) (env : Replies) (fuel n fd port : ℕ) (w : World)
    → env.accept n ≡ accepted fd port
    → accept_conn ctl env (suc fuel) n w
      ≡ (do p ← get_conn env.new env.junk; register ctl fd port p) w
unfolding accept_conn answer
accept-step ctl env fuel n fd port w reply =
    ap (λ r. answer ctl env (accept_conn ctl env fuel (n + 1)) r w) reply

-- A connection that `accept` gives after `k` interruptions, with an object from the pool: if epoll
-- takes it, the object has its descriptor and port and is registered with it; else the descriptor is
-- closed and the object is back in the pool. One round more than there are interruptions is enough.
-- The descriptor is not 0.
pub accept_conn-register :
    (ctl : List Call → Call → Bool) (env : Replies) (k fuel fd port : ℕ)
    → ((i : ℕ) → i < k → env.accept i ≡ interrupted)
    → env.accept k ≡ accepted fd port
    → fd ≢ 0
    → (w : World) (p : Ptr) {c : ConnObj} {ps : List Ptr} {e : Event} {rest : List Event}
    → Holds w.conns p c
    → w.pool ≡ p ∷ ps
    → w.slots ≡ e ∷ rest
    → (w' : World) × (((ctl w.calls (ctl_add (some fd) (watch p)) ≡ true)
          × (accept_conn ctl env (k + suc fuel) 0 w ≡ done p w')
          × Holds w'.conns p (fresh c fd port)
          × (w'.calls ≡ w.calls ++ ctl_add (some fd) (watch p) ∷ [])
          × (w'.pool ≡ ps))
        ⊎ ((ctl w.calls (ctl_add (some fd) (watch p)) ≡ false)
            × (accept_conn ctl env (k + suc fuel) 0 w ≡ done null w')
            × Holds w'.conns p (cleared (fresh c fd port))
            × (w'.calls ≡ (w.calls ++ ctl_add (some fd) (watch p) ∷ []) ++ close_fd (some fd) ∷ [])
            × (w'.pool ≡ ps ++ p ∷ [])))
accept_conn-register ctl env k fuel fd port retried reply ne w p {c} {ps} {e} {rest} held queue
      there =
    let w1 = record w { pool = ps } in
    let at : (i : ℕ) → i < k → env.accept (0 + i) ≡ interrupted =
      λ i below. subst (λ j. env.accept j ≡ interrupted) (omega arith) (retried i below) in
    let got : env.accept (0 + k) ≡ accepted fd port =
      subst (λ j. env.accept j ≡ accepted fd port) (omega arith) reply in
    let popped = get_conn-cons w p ps env.new env.junk queue in
    let run : accept_conn ctl env (k + suc fuel) 0 w ≡ register ctl fd port p w1 =
      skip ctl env k (suc fuel) 0 w at
      ∙ (accept-step ctl env fuel (0 + k) fd port w got
          ∙ ap (λ r. resume (λ p. register ctl fd port p) r) popped) in
    let held' = Holds-write held (fresh c fd port) in
    elim (Bool-cases (ctl w.calls (ctl_add (some fd) (watch p)))) [
      | inl ok ↦ (
        added ctl w1 p held there fd port,
        inl (ok, run ∙ register-true ctl w1 p held there fd port ok, held', refl, refl),
      )
      | inr bad ↦ (
        _,
        inr (
          bad,
          run ∙ register-false ctl w1 p held there fd port bad ne,
          Holds-write held' (cleared (fresh c fd port)),
          refl,
          refl,
        ),
      )
    ]
