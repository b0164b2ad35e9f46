-- ===== src/Socket.antt =====
-- `sendData` and `readData` of connobj.c. The calls `write` and `read` are parameters: what the
-- kernel replies to the n-th call of a run, of which `write` is told the offset and the length.
pub mod Read
pub mod Send
pub mod Options
use epoll_net.Base.{
  Option, none, some, ℕ, zero, suc, ◌+◌, ◌-◌, ◌^◌, Bool, ◌&&◌, List, [], ◌∷◌, ◌++◌, length, drop,
  ltb, ◌==◌, if◌then◌else◌,
}

-- A reply is a count, or -1 with `errno` EINTR, EAGAIN (EWOULDBLOCK is the same number), or another.
pub data WriteReply : Type 0 where
  wrote : ℕ → WriteReply
  interrupted would_block failed : WriteReply

pub data SendCode : Type 0 where
  -- 0, -2 and -1
  sent again error : SendCode

-- The offsets and lengths that `write` was called with, oldest first.
abbrev pub Calls : Type 0
Calls = List (ℕ × ℕ)

pub data SendRun : Type 0 where
  returned : SendCode → Calls → SendRun
  running : SendRun

-- How a round ends on a reply: a short write breaks the loop, and the function returns 0.
abbrev pub react : ℕ → WriteReply → SendRun → Calls → SendRun
react len (wrote count) more calls = if ltb count len then returned sent calls else more
react len interrupted more calls = more
react len would_block more calls = returned again calls
react len failed more calls = returned error calls

module _ (write : ℕ → ℕ → ℕ → WriteReply) (sendlen : ℕ) where
  -- `while (len>0)`, before call `n` and after `calls`. `len` is an `int`.
  unfoldable pub send_loop : ℕ → ℕ → ℕ → Calls → SendRun
  send_loop zero n len calls = running
  send_loop (suc fuel) n len calls =
      let calls' = calls ++ (sendlen - len, len) ∷ [] in
      let more = send_loop fuel (n + 1) len calls' in
      let next = react len (write n (sendlen - len) len) more calls' in
      if ltb 0 len && ltb len (2 ^ 31) then next else returned sent calls

-- `none` is a NULL connection, and otherwise its `sendlen` is given.
unfoldable pub send_data : (ℕ → ℕ → ℕ → WriteReply) → Option ℕ → ℕ → SendRun
unfolding send_loop
send_data write none fuel = returned error []
send_data write (some sendlen) fuel = send_loop write sendlen fuel 0 sendlen []

-- A positive count comes with the bytes that the kernel put into the buffer, the first apart;
-- `closed` is 0.
pub data ReadReply : Type 0 where
  got : ℕ → List ℕ → ReadReply
  closed interrupted would_block failed : ReadReply

pub data ReadRun : Type 0 where
  -- What is returned (-2 is `again`, -1 `no_connection`), and the buffer at `ptr`.
  count : ℕ → List ℕ → ReadRun
  again no_connection : ReadRun
  running : ReadRun

-- A `read` at the start of the buffer overwrites its front.
abbrev pub overwrite : List ℕ → List ℕ → List ℕ
overwrite bytes buffer = bytes ++ drop (length bytes) buffer

module _ (read : ℕ → ReadReply) (len : ℕ) where
  -- `for(;;)`, before call `n`, with `nLen` bytes counted.
  unfoldable pub read_loop : ℕ → ℕ → ℕ → List ℕ → ReadRun
  read_loop zero n total buffer = running
  read_loop (suc fuel) n total buffer = elim (read n) [
    | got byte rest ↦
        let bytes = byte ∷ rest in
        let total' = total + length bytes in
        let buffer' = overwrite bytes buffer in
        let more = read_loop fuel (n + 1) total' buffer' in
        if total' == len then more else count total' buffer'
    | closed ↦ count 0 buffer
    | interrupted ↦ read_loop fuel (n + 1) total buffer
    | would_block ↦ again
    | failed ↦ read_loop fuel (n + 1) total buffer
  ]

-- `none` is a NULL connection, and otherwise what the kernel replies for its socket is given.
unfoldable pub read_data : Option (ℕ → ReadReply) → ℕ → ℕ → List ℕ → ReadRun
unfolding read_loop
read_data none len fuel buffer = no_connection
read_data (some read) len fuel buffer = read_loop read len fuel 0 0 buffer
