-- ===== src/Epoll/Lifecycle.antt =====
-- `epollBase_init` and `epollBase_destory` of epoll.c, and `EpollInterface_Create`,
-- `EpollInterface_Destory` and `epollEvent_clear` of epollevent.c, by the descriptors and blocks that
-- the process holds. The functions that an interface tabulates are left out.
use epoll_net.Base.{
  ℕ, ◌≡◌, ◌≢◌, sym, ==_refl, ==_false, Option, none, some, List, [], ◌∷◌, ◌==◌, if◌then◌else◌,
}
use epoll_net.Memory.{Ptr, null}

-- What the process holds, the newest first.
pub record Held : Type 0 where
  pub files : List ℕ
  pub blocks : List Ptr

-- `struct tagEpollBase`, with its own address.
pub record EpollBase : Type 0 where
  pub address : Ptr
  pub epollhandle : ℕ
  pub event : Ptr

-- One occurrence is given back.
abbrev pub dropped : ℕ → List ℕ → List ℕ
dropped x [] = []
dropped x (y ∷ ys) = if x == y then ys else y ∷ dropped x ys

-- What `epoll_create` gives, `none` for -1, and what `malloc` returns for the events and the base.
unfoldable pub base_init : Option ℕ → Ptr → Ptr → Held → Option EpollBase × Held
base_init none event base s = (none, s)
base_init (some handle) event base s =
    if event == null
    then (none, record s { files = handle ∷ s.files })
    else if base == null
    then (none, record { files = handle ∷ s.files; blocks = event ∷ s.blocks })
    else (
      some (record { address = base; epollhandle = handle; event = event }),
      record { files = handle ∷ s.files; blocks = base ∷ event ∷ s.blocks },
    )

unfoldable pub base_destroy : Option EpollBase → Held → Held
base_destroy none s = s
base_destroy (some b) s =
    let blocks = if b.event == null then s.blocks else dropped b.event s.blocks in
    record { files = dropped b.epollhandle s.files; blocks = dropped b.address blocks }

-- `struct tagEpollInterface`, with its own address.
pub record EpollInterface : Type 0 where
  pub address : Ptr
  pub epollbase : Option EpollBase

abbrev pub interface_of : Ptr → Option EpollBase × Held → Option EpollInterface × Held
interface_of p (b, s) = (some (record { address = p; epollbase = b }), s)

-- `EpollInterface_Create`: its block is held first, and it is returned also when the base is NULL.
unfoldable pub create : Ptr → Option ℕ → Ptr → Ptr → Held → Option EpollInterface × Held
unfolding base_init
create p handle event base s =
    if p == null
    then (none, s)
    else interface_of p (base_init handle event base (record s { blocks = p ∷ s.blocks }))

unfoldable pub destroy : Option EpollInterface → Held → Held
unfolding base_destroy
destroy none s = s
destroy (some i) s =
    let s' = base_destroy i.epollbase s in record s' { blocks = dropped i.address s'.blocks }

module _ (p event base : Ptr) (s : Held) (there : p ≢ null) where
  -- An interface that is created with all its memory and destroyed leaves nothing held.
  pub destroy-interface_of :
      (handle : ℕ)
      → event ≢ null
      → base ≢ null
      → base ≢ event
      → destroy (create p (some handle) event base s).0 (create p (some handle) event base s).1 ≡ s
  unfolding create destroy
  destroy-interface_of handle some_event some_base apart = rw (
    ==_false p null there,
    ==_false event null some_event,
    ==_false base null some_base,
    ==_refl handle,
    ==_false event base (λ e. apart (sym e)),
    ==_false event null some_event,
    ==_refl event,
    ==_refl base,
    ==_refl p,
  )

  -- Without memory for the events, the descriptor of epoll is still held behind them.
  pub destroy_leaks :
      (handle : ℕ)
      → (destroy
          (create p (some handle) null base s).0
          (create p (some handle) null base s).1).files
        ≡ handle ∷ s.files
  unfolding create destroy
  destroy_leaks handle = rw (==_false p null there)
