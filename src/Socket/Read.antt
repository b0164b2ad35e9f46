-- ===== src/Socket/Read.antt =====
-- What `readData` (connobj.c) returns, and what it leaves in the buffer.
use epoll_net.Base.{
  some, ℕ, zero, suc, ◌+◌, ◌-◌, ◌≤◌, ◌<◌, ◌≡◌, ◌⊎◌, inl, inr, refl, ◌∙◌, Bool, true, false, List,
  ◌∷◌, arith, ◌==◌, length, ==_refl,
}
use epoll_net.Socket.{
  ReadReply, got, closed, interrupted, would_block, failed, ReadRun, count, again, running,
  overwrite, read_loop, read_data,
}

-- EINTR is tried again, and so is every error that is not EAGAIN.
abbrev pub retries : ReadReply → Bool
retries interrupted = true
retries failed = true
retries _ = false

-- How a reply that is not tried again ends the call, with `total` bytes counted before.
abbrev pub settle : ℕ → List ℕ → ReadReply → ReadRun
settle total buffer (got byte rest) =
    count (total + length (byte ∷ rest)) (overwrite (byte ∷ rest) buffer)
settle total buffer closed = count 0 buffer
settle total buffer would_block = again
settle total buffer interrupted = running
settle total buffer failed = running

-- A reply that fills the buffer.
abbrev pub fills : ℕ → ReadReply → Bool
fills len (got byte rest) = length (byte ∷ rest) == len
fills len _ = false

module _ (read : ℕ → ReadReply) (len : ℕ) where
  loop-retry :
      (fuel n total : ℕ) (buffer : List ℕ) (r : ReadReply)
      → read n ≡ r
      → retries r ≡ true
      → read_loop read len (suc fuel) n total buffer ≡ read_loop read len fuel (n + 1) total buffer
  unfolding read_loop
  loop-retry fuel n total buffer (got b bs) e h = cc
  loop-retry fuel n total buffer closed e h = cc
  loop-retry fuel n total buffer interrupted e h = rw (e, read_loop)
  loop-retry fuel n total buffer would_block e h = cc
  loop-retry fuel n total buffer failed e h = rw (e, read_loop)

  loop-full :
      (fuel n : ℕ) (buffer : List ℕ) (b : ℕ) (bs : List ℕ)
      → read n ≡ got b bs
      → length (b ∷ bs) ≡ len
      → read_loop read len (suc fuel) n 0 buffer
        ≡ read_loop read len fuel (n + 1) len (overwrite (b ∷ bs) buffer)
  unfolding read_loop
  loop-full fuel n buffer b bs e full =
      let total : 0 + length (b ∷ bs) ≡ len = omega arith in rw (e, read_loop, total, ==_refl len)

  loop-settle :
      (fuel n total : ℕ) (buffer : List ℕ) (r : ReadReply)
      → read n ≡ r
      → retries r ≡ false
      → (total ≡ len) ⊎ ((total ≡ 0) × (fills len r ≡ false))
      → read_loop read len (suc fuel) n total buffer ≡ settle total buffer r
  unfolding read_loop
  loop-settle fuel n total buffer (got b bs) e h partial =
      let short : (total + length (b ∷ bs) == len) ≡ false = ground arith in
      rw (e, read_loop, short)
  loop-settle fuel n total buffer closed e h partial = rw (e, read_loop)
  loop-settle fuel n total buffer interrupted e h partial = cc
  loop-settle fuel n total buffer would_block e h partial = rw (e, read_loop)
  loop-settle fuel n total buffer failed e h partial = cc

  skip :
      (k f f' n m total : ℕ) (buffer : List ℕ)
      → f ≡ k + f'
      → m ≡ n + k
      → ((i : ℕ) → n ≤ i → i < m → retries (read i) ≡ true)
      → read_loop read len f n total buffer ≡ read_loop read len f' m total buffer
  skip zero f f' n m total buffer fuel at each =
      let same : f ≡ f' = omega arith in let here : m ≡ n = omega arith in rw (same, here)
  skip (suc k) zero f' n m total buffer fuel at each = absurd (omega arith)
  skip (suc k) (suc f) f' n m total buffer fuel at each =
      loop-retry f n total buffer (read n) refl (each n (omega arith) (omega arith))
      ∙ skip k f f' (n + 1) m total buffer (omega arith) (omega arith)
          (λ i a b. each i (omega arith) b)

  -- `readData` waits for the first reply that is neither EINTR nor an error besides EAGAIN. Unless
  -- that reply fills the buffer it ends the call: with the count of its bytes, which stand at the
  -- front of the buffer, with 0 for a closed connection, and with -2 for EAGAIN.
  pub read_data_settles :
      (k fuel : ℕ) (buffer : List ℕ)
      → ((i : ℕ) → i < k → retries (read i) ≡ true)
      → retries (read k) ≡ false
      → fills len (read k) ≡ false
      → k < fuel
      → read_data (some read) len fuel buffer ≡ settle 0 buffer (read k)
  unfolding read_data
  read_data_settles k fuel buffer each last partial enough =
      skip k fuel (suc (fuel - k - 1)) 0 k 0 buffer (omega arith) (omega arith) (λ i a b. each i b)
      ∙ loop-settle _ k 0 buffer (read k) refl last (inr (refl, partial))

  -- After a reply that fills the buffer `readData` reads to the start of the buffer once more. A
  -- reply with bytes then gives a count above the buffer's length, with the first bytes overwritten;
  -- EAGAIN gives -2, and a closed connection 0, though the buffer is full of data.
  pub read_data_overruns :
      (k j fuel : ℕ) (buffer : List ℕ) (b : ℕ) (bs : List ℕ)
      → ((i : ℕ) → i < k → retries (read i) ≡ true)
      → read k ≡ got b bs
      → length (b ∷ bs) ≡ len
      → ((i : ℕ) → k < i → i < k + 1 + j → retries (read i) ≡ true)
      → retries (read (k + 1 + j)) ≡ false
      → k + 1 + j < fuel
      → read_data (some read) len fuel buffer
        ≡ settle len (overwrite (b ∷ bs) buffer) (read (k + 1 + j))
  unfolding read_data
  read_data_overruns k j fuel buffer b bs each first full more last enough =
      skip k fuel (suc (fuel - k - 1)) 0 k 0 buffer (omega arith) (omega arith) (λ i a b. each i b)
      ∙ loop-full _ k buffer b bs first full
      ∙ skip j (fuel - k - 1) (suc (fuel - k - 1 - j - 1)) (k + 1) (k + 1 + j) len
          (overwrite (b ∷ bs) buffer) (omega arith) (omega arith) (λ i a b. more i (omega arith) b)
      ∙ loop-settle _ (k + 1 + j) len (overwrite (b ∷ bs) buffer) (read (k + 1 + j)) refl last
          (inl refl)

  -- On an error that is neither EINTR nor EAGAIN, such as ECONNRESET, that stays, `readData` does not
  -- return, for any number of rounds.
  pub read_data_hangs :
      ((i : ℕ) → retries (read i) ≡ true)
      → (fuel : ℕ) (buffer : List ℕ) → read_data (some read) len fuel buffer ≡ running
  unfolding read_data read_loop
  read_data_hangs each fuel buffer =
      skip fuel fuel 0 0 fuel 0 buffer (omega arith) (omega arith) (λ i a b. each i)
      ∙ loop_end fuel buffer
    where
      loop_end : (n : ℕ) (buffer : List ℕ) → read_loop read len 0 n 0 buffer ≡ running
      loop_end n buffer = refl
