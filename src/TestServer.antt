-- ===== src/TestServer.antt =====
-- test_server.c but for `Decode`, which is in Frame: the callback for received bytes, and `main` up to
-- its endless sleep. A string is the list of its bytes; the environment's functions are parameters.
use epoll_net.Base.{
  ℕ, ℤ, pos, negsuc, zero, suc, ◌+◌, ◌/◌, ◌%◌, Option, none, some, List, [], ◌∷◌, get_elem?, ltb,
  ◌==◌, if◌then◌else◌,
}
use epoll_net.Memory.{Ptr, null, Prog, pure, ◌>>=◌, load}
use epoll_net.World.{World, in_conns}

-- `readdata`: the object is looked at, but every use of the bytes is commented out.
unfoldable pub read_data : Ptr → Ptr → ℕ → Prog World ℤ
read_data conn rdata len =
    if conn == null then pure (pos 0) else do c ← in_conns (load conn); pure (pos 0)

-- A digit of `%.2x`.
abbrev pub digit : ℕ → ℕ
digit n = if ltb n 10 then 48 + n else 87 + n

-- `DebugInfo`: what is printed, `none` where more is read than there is.
unfoldable pub debug_info : ℕ → List ℕ → Option (List ℕ)
debug_info zero bytes = some (10 ∷ [])
debug_info (suc n) [] = none
debug_info (suc n) (b ∷ bytes) = elim (debug_info n bytes) [
  | none ↦ none
  | some line ↦ some (digit (b / 16) ∷ digit (b % 16) ∷ 32 ∷ line)
]

-- How `main` ends: it returns, `atoi` reads through NULL, or it sleeps for ever, with the server that
-- `StartServer` gave.
pub data Run (Server : Type 0) : Type 0 where
  returned : ℤ → Run Server
  crashed : Run Server
  sleeping : Server → Run Server

module _ {Server : Type 0} (atoi : List ℕ → ℤ) (start_server : List ℕ → ℤ → Server) where
  -- `argv[argc]` is NULL.
  unfoldable pub with_port : Option (List ℕ) → List ℕ → Run Server
  with_port none ip = crashed
  with_port (some arg) ip = sleeping (start_server ip (atoi arg))

  -- The arguments with the program's name in front. The log file is opened on the way.
  unfoldable pub main : List (List ℕ) → Run Server
  unfolding with_port
  main [] = returned (negsuc 0)
  main (name ∷ []) = returned (negsuc 0)
  main (name ∷ ip ∷ args) = with_port (get_elem? args 0) ip
