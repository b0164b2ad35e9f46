-- ===== src/Epoll.antt =====
-- epollevent.c: registering connections, and the loop that turns the events of one `epoll_wait` into
-- callbacks. The base is not NULL. `ctl` says whether a call of `epoll_ctl` succeeds, given the calls
-- before it; on failure its result is -1, which is `false` here, and else 0.
pub mod Lifecycle
use epoll_net.Base.{
  ℕ, zero, suc, ◌+◌, Bool, true, false, ◌||◌, Option, none, some, List, [], ◌∷◌, ◌++◌, get_elem?,
  length, drop, ◌==◌, if◌then◌else◌,
}
use epoll_net.Memory.{Ptr, null, Prog, done, crash, pure, ◌>>=◌, ◌>>◌, load}
use epoll_net.World.{World, Flags, Event, Mask, Call, ctl_add, ctl_mod, ctl_del, in_conns}

-- `*evb->event = e`, which is the first slot of the array that `epoll_wait` fills.
unfoldable pub set_first : Event → Prog World (Unit {0})
set_first e w = elim (w.slots) [ [] ↦ crash | _ ∷ rest ↦ done tt (record w { slots = e ∷ rest }) ]

-- The flags that `epollEvent_modifyConn` asks for.
abbrev pub wanted : Mask → Flags
wanted m = record {
  inp = m.read;
  out = m.write;
  err = false;
  hup = false;
  rdhup = false;
  edge = true;
}

module _ (ctl : List Call → Call → Bool) where
  unfoldable pub call_ctl : Call → Prog World Bool
  call_ctl c w = done (ctl w.calls c) (record w { calls = w.calls ++ c ∷ [] })

  unfoldable pub add_conn : Ptr → Flags → Prog World Bool
  unfolding set_first call_ctl
  add_conn p flags = if p == null then pure false else do
    set_first (record { flags = flags; conn = p })
    c ← in_conns (load p)
    call_ctl (ctl_add c.fd (record { flags = flags; conn = p }))

  unfoldable pub del_conn : Ptr → Prog World Bool
  unfolding call_ctl
  del_conn p = do c ← in_conns (load p); call_ctl (ctl_del c.fd)

  unfoldable pub modify_conn : Ptr → Mask → Prog World Bool
  unfolding set_first call_ctl
  modify_conn p m = do
    set_first (record { flags = wanted m; conn = p })
    c ← in_conns (load p)
    call_ctl (ctl_mod c.fd (record { flags = wanted m; conn = p }))

-- `evb->event[i]`
unfoldable pub slot : ℕ → Prog World Event
slot i w = elim (get_elem? w.slots i) [ none ↦ crash | some e ↦ done e w ]

-- `evb->cb`, `none` if it is NULL.
abbrev pub Callback : Type 0
Callback = Option (Ptr → Mask → Prog World (Unit {0}))

unfoldable pub fire : Callback → ℕ → Mask → Prog World (Unit {0})
unfolding slot
fire none i m = pure tt
fire (some cb) i m = do ev ← slot i; cb ev.conn m

-- The three tests of a round. Each reads the slot anew, and returns `events` behind it.
module _ (cb : Callback) (i : ℕ) where
  unfoldable pub check_write : Mask → Prog World Mask
  unfolding slot fire
  check_write m = do
    ev ← slot i
    if ev.flags.out || ev.flags.hup
        then (do fire cb i (record m { write = true }); pure (record m { write = true }))
        else pure m

  unfoldable pub check_err : Mask → Prog World Mask
  unfolding slot
  check_err m = do ev ← slot i; pure (if ev.flags.err then record m { err = true } else m)

  unfoldable pub check_read : Mask → Prog World Mask
  unfolding slot fire
  check_read m = do
    ev ← slot i
    if ev.flags.inp || ev.flags.hup
        then (do fire cb i (record m { read = true }); pure (record m { read = true }))
        else pure m

-- `for (; i < fd_active_nums; i++)` with the rounds left, the slot and `events`.
unfoldable pub dispatch : Callback → ℕ → ℕ → Mask → Prog World (Unit {0})
unfolding check_write check_err check_read
dispatch cb zero i m = pure tt
dispatch cb (suc n) i m = do
  m1 ← check_write cb i m
  m2 ← check_err cb i m1
  m3 ← check_read cb i m2
  dispatch cb n (i + 1) m3

unfoldable pub fill_slots : List Event → Prog World (Unit {0})
fill_slots ready w = done tt (record w { slots = ready ++ drop (length ready) w.slots })

abbrev pub no_events : Mask
no_events = record { read = false; write = false; err = false }

-- `epollEvent_wait`, with the events that `epoll_wait` reports, or `none` if it fails; the result
-- is their number, `none` for -1.
unfoldable pub wait : Callback → Option (List Event) → Prog World (Option ℕ)
unfolding dispatch fill_slots
wait cb none = pure none
wait cb (some ready) = do
  fill_slots ready
  dispatch cb (length ready) 0 no_events
  pure (some (length ready))
