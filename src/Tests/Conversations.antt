-- ===== src/Tests/Conversations.antt =====
-- The client of Servers sends the byte 7, which is answered twice, and the kernel takes one of the two.
use epoll_net.Base.{ℕ, none, some, List, [], ◌∷◌, ◌++◌, ◌≡◌, ◌≢◌, refl, arith}
use epoll_net.Memory.{Ptr, done, ◌>>=◌, ◌>>◌}
use epoll_net.Memory.Holds.{Holds}
use epoll_net.World.{World, ctl_mod}
use epoll_net.Epoll.{wanted}
use epoll_net.Handlers.{read_only, write_only}
use epoll_net.Server.{refused, Replies, callback, process_round}
use epoll_net.Server.Conversation.{respond, callback-respond}
use epoll_net.Tests.Servers.{
  always, client, client-held, quiet, one_client, one_byte, one_byte-count, one_read, takes_one,
}

abbrev twice : List ℕ → List ℕ
twice bytes = bytes ++ bytes

abbrev replies : Replies
replies = record {
  accept = λ n. refused;
  so_error = some 0;
  read = one_byte;
  write = takes_one;
  str = 100;
  item = 200;
  new = 0;
  junk = client;
}

callback-respond_example :
    (w' : World) × ((do
      callback always 20 replies 1 10 read_only
      _ ← process_round (respond always twice 300)
      callback always 20 replies 1 10 write_only)
        one_client
      ≡ done tt w')
    × Holds w'.conns 10 client
    × ((w'.strings 100 ≡ none)
        × (w'.strings 300 ≡ none)
        × ((q : Ptr) → q ≢ 100 → q ≢ 300 → w'.strings q ≡ none))
    × ((w'.received ≡ []) × (w'.posts ≡ 0))
    × (w'.slots ≡ quiet ∷ [])
    × (w'.calls
        ≡ ctl_mod (some 5) (record { flags = wanted write_only; conn = 10 })
          ∷ ctl_mod (some 5) (record { flags = wanted read_only; conn = 10 })
          ∷ [])
callback-respond_example =
    callback-respond always one_client 10 client-held replies 1 0 one_read (omega arith)
      (omega arith) (omega arith) twice 300 (omega arith) (omega arith) (omega arith) (omega arith)
      refl replies 20 (omega arith) refl refl (omega arith) refl refl one_byte-count 0 1
      (λ i none_before. absurd (omega arith)) refl (omega arith) (omega arith)
