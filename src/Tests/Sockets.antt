-- ===== src/Tests/Sockets.antt =====
-- `sendData` and `readData` against concrete kernels.
use epoll_net.Base.{some, ℕ, zero, suc, ◌<◌, ◌≡◌, refl, true, List, [], ◌∷◌, arith}
use epoll_net.Socket.{
  WriteReply, wrote, sent, returned, send_data, ReadReply, got, count, read_data,
}
use epoll_net.Socket.Send
use epoll_net.Socket.Send.{send_data_stop, send_data_repeats}
use epoll_net.Socket.Read
use epoll_net.Socket.Read.{read_data_settles, read_data_overruns, read_data_hangs}

-- A signal, the whole of 5 bytes, and then 2 of them.
abbrev slow_kernel : ℕ → ℕ → ℕ → WriteReply
slow_kernel zero offset len = WriteReply.interrupted
slow_kernel (suc zero) offset len = wrote len
slow_kernel (suc (suc n)) offset len = wrote 2

slow_retries : (i : ℕ) → i < 2 → Send.retries 5 (slow_kernel i 0 5) ≡ true
slow_retries zero h = refl
slow_retries (suc zero) h = refl
slow_retries (suc (suc i)) h = absurd (omega arith)

send_data_stop_example :
    send_data slow_kernel (some 5) 10 ≡ returned sent ((0, 5) ∷ (0, 5) ∷ (0, 5) ∷ [])
send_data_stop_example =
    send_data_stop slow_kernel 5 (omega arith) (omega arith) 2 10 slow_retries refl (omega arith)

-- A signal, and then two replies of four bytes and three.
abbrev chunks : ℕ → ReadReply
chunks zero = ReadReply.interrupted
chunks (suc zero) = got 1 (2 ∷ 3 ∷ 4 ∷ [])
chunks (suc (suc n)) = got 5 (6 ∷ 7 ∷ [])

chunks-retries : (i : ℕ) → i < 1 → Read.retries (chunks i) ≡ true
chunks-retries zero h = refl
chunks-retries (suc i) h = absurd (omega arith)

abbrev eight : List ℕ
eight = 0 ∷ 0 ∷ 0 ∷ 0 ∷ 0 ∷ 0 ∷ 0 ∷ 0 ∷ []

read_data_settles_example :
    read_data (some chunks) 8 10 eight ≡ count 4 (1 ∷ 2 ∷ 3 ∷ 4 ∷ 0 ∷ 0 ∷ 0 ∷ 0 ∷ [])
read_data_settles_example =
    read_data_settles chunks 8 1 10 eight chunks-retries refl refl (omega arith)

-- A buffer of 4 bytes: 7 are counted, of which it holds the last 3.
read_data_overruns_example :
    read_data (some chunks) 4 10 (0 ∷ 0 ∷ 0 ∷ 0 ∷ []) ≡ count 7 (5 ∷ 6 ∷ 7 ∷ 4 ∷ [])
read_data_overruns_example =
    read_data_overruns chunks 4 1 0 10 (0 ∷ 0 ∷ 0 ∷ 0 ∷ []) 1 (2 ∷ 3 ∷ 4 ∷ []) chunks-retries refl
      refl (λ i a b. absurd (omega arith)) refl (omega arith)
