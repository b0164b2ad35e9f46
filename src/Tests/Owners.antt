-- ===== src/Tests/Owners.antt =====
-- The client of Servers is read from, answered by a worker and written to, with one free address.
use epoll_net.Base.{ℕ, none, some, List, [], ◌∷◌, ◌≡◌, Option}
use epoll_net.Memory.{Ptr, Prog}
use epoll_net.Memory.Ensures.{Ensures}
use epoll_net.Memory.Holds.{Holds}
use epoll_net.World.{World}
use epoll_net.CStr.{CStr}
use epoll_net.Socket.{WriteReply, failed}
use epoll_net.Handlers.{read_only, write_only}
use epoll_net.Server.{refused, Replies, server_send}
use epoll_net.Server.Ownership.Runs.{Job, event, send, work}
use epoll_net.Tests.Servers.{always, client, one_byte}

abbrev IsClient : Ptr → Type 0
IsClient p = p ≡ 10

-- One address is given out, again and again, where it is free.
abbrev given : Option CStr → Ptr
given none = 100
given (some s) = 0

abbrev malloc : World → Ptr
malloc w = given (w.strings 100)

-- The client's callback answers with the byte 1.
abbrev answer : Ptr → Ptr → ℕ → Prog World (Unit {0})
answer p ptr len w = server_send always (malloc w) p (1 ∷ []) 1 w

abbrev refuses : ℕ → ℕ → ℕ → WriteReply
refuses n offset len = failed

abbrev replies : Replies
replies = record {
  accept = λ n. refused;
  so_error = some 0;
  read = one_byte;
  write = refuses;
  str = 0;
  item = 200;
  new = 0;
  junk = client;
}

abbrev jobs : List Job
jobs =
    event (record replies { so_error = some 104; item = 0 }) 1 10 read_only
    ∷ event replies 1 10 read_only
    ∷ work
    ∷ send (1 ∷ 2 ∷ []) 2 10
    ∷ event replies 1 10 write_only
    ∷ []
