-- ===== src/Socket/Send.antt =====
-- What `sendData` (connobj.c) sends, and when it returns.
use epoll_net.Base.{
  some, ℕ, zero, suc, ◌+◌, ◌-◌, ◌^◌, ◌≤◌, ◌<◌, ◌≡◌, refl, ap, ◌∙◌, Bool, true, false, [], ◌∷◌, ◌++◌,
  arith, ltb, if◌then◌else◌, replicate, append_assoc, lt→ltb,
}
use epoll_net.Socket.{
  WriteReply, wrote, interrupted, would_block, failed, SendCode, sent, again, error, Calls, SendRun,
  react, returned, running, send_loop, send_data,
}

-- The replies on which the loop goes round again: EINTR, and the whole of what was asked for.
abbrev pub retries : ℕ → WriteReply → Bool
retries len (wrote count) = if ltb count len then false else true
retries len interrupted = true
retries len would_block = false
retries len failed = false

abbrev pub code_of : WriteReply → SendCode
code_of would_block = again
code_of failed = error
code_of _ = sent

react-retry :
    (len : ℕ) (r : WriteReply) (more : SendRun) (calls : Calls)
    → retries len r ≡ true
    → react len r more calls ≡ more
react-retry len (wrote count) more calls h = ground arith
react-retry len interrupted more calls h = refl
react-retry len would_block more calls h = cc
react-retry len failed more calls h = cc

react-stop :
    (len : ℕ) (r : WriteReply) (more : SendRun) (calls : Calls)
    → retries len r ≡ false
    → react len r more calls ≡ returned (code_of r) calls
react-stop len (wrote count) more calls h = ground arith
react-stop len interrupted more calls h = cc
react-stop len would_block more calls h = refl
react-stop len failed more calls h = refl

whole_retries : (len : ℕ) → retries len (wrote len) ≡ true
whole_retries len = ground arith

module _ (write : ℕ → ℕ → ℕ → WriteReply) (sendlen : ℕ) (some_data : 0 < sendlen)
    (int : sendlen < 2 ^ 31) where
  abbrev reply : ℕ → WriteReply
  reply n = write n 0 sendlen

  send_loop-zero : (n : ℕ) (calls : Calls) → send_loop write sendlen 0 n sendlen calls ≡ running
  unfolding send_loop
  send_loop-zero n calls = refl

  send_loop-suc :
      (fuel n : ℕ) (calls : Calls)
      → send_loop write sendlen (suc fuel) n sendlen calls
        ≡ react sendlen
            (reply n)
            (send_loop write sendlen fuel (n + 1) sendlen (calls ++ (0, sendlen) ∷ []))
            (calls ++ (0, sendlen) ∷ [])
  unfolding send_loop
  send_loop-suc fuel n calls =
      let whole : sendlen - sendlen ≡ 0 = omega arith in
      rw (whole, lt→ltb 0 sendlen some_data, lt→ltb sendlen (2 ^ 31) int)

  send_loop_skip :
      (k fuel n : ℕ) (calls : Calls)
      → ((i : ℕ) → n ≤ i → i < n + k → retries sendlen (reply i) ≡ true)
      → fuel ≤ k
      → send_loop write sendlen fuel n sendlen calls ≡ running
  send_loop_skip k zero n calls each few = send_loop-zero n calls
  send_loop_skip zero (suc fuel) n calls each few = absurd (omega arith)
  send_loop_skip (suc k) (suc fuel) n calls each few =
      send_loop-suc fuel n calls
      ∙ react-retry sendlen (reply n) _ _ (each n (omega arith) (omega arith))
      ∙ send_loop_skip k fuel (n + 1) _ (λ i a b. each i (omega arith) (omega arith)) (omega arith)

  send_loop_stop :
      (k fuel n m : ℕ) (calls : Calls)
      → m ≡ n + k
      → ((i : ℕ) → n ≤ i → i < m → retries sendlen (reply i) ≡ true)
      → retries sendlen (reply m) ≡ false
      → k < fuel
      → send_loop write sendlen fuel n sendlen calls
        ≡ returned (code_of (reply m)) (calls ++ replicate (suc k) (0, sendlen))
  send_loop_stop k zero n m calls at each last enough = absurd (omega arith)
  send_loop_stop zero (suc fuel) n m calls at each last enough =
      let here : m ≡ n = omega arith in
      send_loop-suc fuel n calls ∙ rw here (react-stop sendlen (reply n) _ _ (rw here at last))
  send_loop_stop (suc k) (suc fuel) n m calls at each last enough =
      send_loop-suc fuel n calls
      ∙ react-retry sendlen (reply n) _ _ (each n (omega arith) (omega arith))
      ∙ send_loop_stop k fuel (n + 1) m _ (omega arith) (λ i a b. each i (omega arith) b) last
          (omega arith)
      ∙ ap (returned (code_of (reply m)))
          (append_assoc calls ((0, sendlen) ∷ []) (replicate (suc k) (0, sendlen)))

  -- `sendData` of some data asks `write` for all of it, from its first byte on, in every call it
  -- makes. It goes on after EINTR and after a call that took everything, and returns at the first
  -- other reply: 0 for a short write, -2 for EAGAIN, -1 for any other error.
  pub send_data_stop :
      (k fuel : ℕ)
      → ((i : ℕ) → i < k → retries sendlen (reply i) ≡ true)
      → retries sendlen (reply k) ≡ false
      → k < fuel
      → send_data write (some sendlen) fuel
        ≡ returned (code_of (reply k)) (replicate (suc k) (0, sendlen))
  unfolding send_data
  send_data_stop k fuel each last enough =
      send_loop_stop k fuel 0 k [] (omega arith) (λ i a b. each i b) last enough

  -- While the kernel takes all that it is asked to take, `sendData` does not return: it sends the
  -- same data again and again, for any number of rounds.
  pub send_data_repeats :
      ((i : ℕ) → reply i ≡ wrote sendlen)
      → (fuel : ℕ) → send_data write (some sendlen) fuel ≡ running
  unfolding send_data
  send_data_repeats each fuel =
      send_loop_skip fuel fuel 0 [] (λ i a b. rw each (whole_retries sendlen)) (omega arith)
