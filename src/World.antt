-- ===== src/World.antt =====
-- What the server's parts share: connection objects, the events of epoll, the items of the receive
-- queue, and the state they all work on.
use epoll_net.Base.{ℕ, Bool, Option, List, [], ◌∷◌, ◌++◌, ◌≡◌}
use epoll_net.Memory.{Ptr, Store, done, crash, running, Prog}
use epoll_net.CStr.{Strings}

-- `enum ConnectState`
pub data Activity : Type 0 where
  connecting connected conn_closed : Activity

-- `struct tagConnObj` without the function pointers, which `connobjReset` sets to the same functions
-- for all. `none` is the descriptor -1.
pub record ConnObj : Type 0 where
  pub fd : Option ℕ
  pub activity : Activity
  pub port : ℕ
  pub sendptr : Ptr
  pub sendlen : ℕ

-- `events` of a `struct epoll_event`: a bit for each of EPOLLIN, EPOLLOUT, EPOLLERR, EPOLLHUP,
-- EPOLLRDHUP and EPOLLET.
pub record Flags : Type 0 where
  pub inp : Bool
  pub out : Bool
  pub err : Bool
  pub hup : Bool
  pub rdhup : Bool
  pub edge : Bool

-- `struct epoll_event`, with `data.ptr`.
pub record Event : Type 0 where
  pub flags : Flags
  pub conn : Ptr

-- An `events` of the callbacks: EVENT_READ, EVENT_WRITE and EVENT_ERR have no bit in common.
pub record Mask : Type 0 where
  pub read : Bool
  pub write : Bool
  pub err : Bool

-- The calls that change what the kernel keeps.
pub data Call : Type 0 where
  ctl_add : Option ℕ → Event → Call
  ctl_mod : Option ℕ → Event → Call
  ctl_del : Option ℕ → Call
  close_fd : Option ℕ → Call

-- `struct tagConnItem`, of which only these fields are used.
pub record Item : Type 0 where
  pub connobj : Ptr
  pub recvptr : Ptr
  pub recvlen : ℕ

-- The objects in memory, the array `evb->event`, the queues of the pool and of received items, oldest
-- first, the value of the semaphore, and the calls so far, oldest first.
pub record World : Type 0 where
  pub conns : Store ConnObj
  pub strings : Strings
  pub slots : List Event
  pub pool : List Ptr
  pub received : List Item
  pub posts : ℕ
  pub calls : List Call

-- A program on one memory, in a state that has it.
abbrev pub in_conns : {A : Type 0} → Prog (Store ConnObj) A → Prog World A
in_conns m w = elim (m w.conns) [
  | done a h ↦ done a (record w { conns = h })
  | crash ↦ crash
  | running ↦ running
]

abbrev pub in_strings : {A : Type 0} → Prog Strings A → Prog World A
in_strings m w = elim (m w.strings) [
  | done a h ↦ done a (record w { strings = h })
  | crash ↦ crash
  | running ↦ running
]

abbrev pub log_call : Call → Prog World (Unit {0})
log_call c w = done tt (record w { calls = w.calls ++ c ∷ [] })

module _ {A : Type 0} {a : A} (w : World) where
  pub in_conns-done :
      (m : Prog (Store ConnObj) A) {h : Store ConnObj}
      → m w.conns ≡ done a h
      → in_conns m w ≡ done a (record w { conns = h })
  in_conns-done m e = rw (in_conns, e)

  pub in_strings-done :
      (m : Prog Strings A) {h : Strings}
      → m w.strings ≡ done a h
      → in_strings m w ≡ done a (record w { strings = h })
  in_strings-done m e = rw (in_strings, e)
