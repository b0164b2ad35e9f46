-- ===== src/Server/Ownership/Runs.antt =====
-- Any sequence of events, replies and rounds of the workers.
use epoll_net.Base.{ℕ, ◌^◌, ◌<◌, ◌≤◌, ◌≢◌, Bool, some, List, [], ◌∷◌, length}
use epoll_net.Memory.{Ptr, Prog, pure, ◌>>=◌, ◌>>◌}
use epoll_net.Memory.Ensures
use epoll_net.Memory.Ensures.{Ensures}
use epoll_net.World.{World, Item, Mask, Call}
use epoll_net.Socket.{read_data, send_data}
use epoll_net.Handlers.{recv_buffer, recv_bytes}
use epoll_net.Server.{Replies, callback, server_send, process_round}
use epoll_net.Server.Ownership.Steps.{Sound}
use epoll_net.Server.Ownership.Events.{Fits}
use epoll_net.Server.Ownership.Sends.{Ends}

-- An event with what the environment gives to its callback, `ServerSend` of so many bytes by any thread, or
-- a round of a worker.
pub data Job : Type 0 where
  event : Replies → ℕ → Ptr → Mask → Job
  send : List ℕ → ℕ → Ptr → Job
  work : Job

module _ (ctl : List Call → Call → Bool) (malloc : World → Ptr) (listener : Ptr)
    (procread : Ptr → Ptr → ℕ → Prog World (Unit {0})) where
  unfoldable pub step : Job → Prog World (Unit {0})
  step (event env fuel p m) w = callback ctl listener (record env { str = malloc w }) fuel p m w
  step (send bytes len p) w = server_send ctl (malloc w) p bytes len w
  step work w = (do _ ← process_round procread; pure tt) w

  unfoldable pub run_jobs : List Job → Prog World (Unit {0})
  unfolding step
  run_jobs [] = pure tt
  run_jobs (job ∷ jobs) = do step job; run_jobs jobs

module _ (InUse : Ptr → Type 0) where
  -- The client's callback keeps the strings where they belong, those of the items in hand too.
  abbrev pub Keeps : (Ptr → Ptr → ℕ → Prog World (Unit {0})) → Type 0
  Keeps procread =
      (hand : List Item) (w : World) (p ptr : Ptr) (len : ℕ)
      → InUse p
      → Sound InUse hand w
      → Ensures (λ _ w'. Sound InUse hand w') (procread p ptr len w)

  module _ (listener : Ptr) where
    -- The job is for a connection in use, an event is not on the listening one, and `readData` and
    -- `sendData` end, the first with what its buffer holds.
    abbrev pub Well : Job → Type 0
    Well (event env fuel p m) =
        InUse p
        × (listener ≢ p)
        × Fits (read_data (some env.read) recv_bytes fuel recv_buffer)
        × ((len : ℕ) → Ends (send_data env.write (some len) fuel))
    Well (send bytes len p) = InUse p × (len < 2 ^ 32) × (len ≤ length bytes)
    Well work = Unit {0}

    abbrev pub AllWell : List Job → Type 0
    AllWell [] = Unit {0}
    AllWell (job ∷ jobs) = Well job × AllWell jobs
