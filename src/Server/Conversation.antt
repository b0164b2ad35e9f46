-- ===== src/Server/Conversation.antt =====
-- A client that sends bytes and gets a part of an answer: the event loop, a worker and the event loop again.
use epoll_net.Base.{
  ℕ, suc, ◌+◌, ◌^◌, ◌<◌, ◌≤◌, some, none, List, [], ◌∷◌, ◌++◌, ◌≡◌, ◌≢◌, refl, ap, sym, subst, ◌∙◌,
  arith, length, take, Bool, true, false, replicate,
}
use epoll_net.Memory.{Ptr, null, Prog, done, write, load, resume, ◌>>=◌, ◌>>◌}
use epoll_net.Memory.Holds.{Holds, load-done, Holds-write, Holds-write_ne, Holds-new}
use epoll_net.World.{World, ConnObj, connected, Call, ctl_mod, Event, in_strings, in_strings-done}
use epoll_net.CStr.{free_str, header_bytes, block_of}
use epoll_net.CStr.Copies.{copied, take-take}
use epoll_net.Socket.{count, read_data, returned, sent, send_data, Calls, wrote}
use epoll_net.Socket.Send.{retries, code_of, send_data_stop}
use epoll_net.Epoll.{wanted}
use epoll_net.Handlers.{recv_buffer, recv_bytes, read_only, write_only}
use epoll_net.Handlers.Reading.{event_read-count}
use epoll_net.Handlers.Writing.{free_str-done, watched, event_write-returned}
use epoll_net.Server.{
  Replies, callback, server_send, process_round, handle_item, take_item, handled,
}
use epoll_net.Server.Reply.{queued, loaded, server_send-queued}
use epoll_net.Server.Serving.{in_order, confirmed, callback-confirmed}

module _ (ctl : List Call → Call → Bool) where
  -- A client's callback that answers the bytes of an item, with what `malloc` gives in `ServerSend`.
  abbrev pub respond : (List ℕ → List ℕ) → Ptr → Ptr → Ptr → ℕ → Prog World (Unit {0})
  respond answer str p ptr len = do
    s ← in_strings (load (block_of ptr))
    server_send ctl str p (answer (take len s.buf)) (length (answer (take len s.buf)))

  module _ (w : World) (p : Ptr) {c : ConnObj} (held : Holds w.conns p c) (env : Replies) (fuel : ℕ)
      (n : ℕ) (buffer : List ℕ) (small : suc n < 2 ^ 32) (enough : suc n ≤ length buffer)
      (some_str : env.str ≢ null) where
    -- The state behind the event with the bytes, and then with the item taken from the queue.
    abbrev arrived : World
    arrived =
        let w0 = confirmed w p c in
        record w0 {
          strings = write w.strings env.str (some (copied buffer (suc n)));
          received =
              w.received
              ++ record { connobj = p; recvptr = env.str + header_bytes; recvlen = suc n } ∷ [];
          posts = w.posts + 1;
        }

    abbrev taken : World
    taken =
        let w0 = confirmed w p c in
        record w0 {
          strings = write w.strings env.str (some (copied buffer (suc n)));
          received = [];
          posts = 0;
        }

    callback-arrived :
        (listener : Ptr)
        → listener ≢ p
        → env.so_error ≡ some 0
        → env.item ≢ null
        → read_data (some env.read) recv_bytes fuel recv_buffer ≡ count (suc n) buffer
        → callback ctl listener env fuel p read_only w ≡ done tt arrived
    callback-arrived listener other good some_item got = rw (
      callback-confirmed ctl env fuel p w listener read_only held other good,
      event_read-count ctl (confirmed w p c) p (Holds-write held (in_order c)) env.read fuel env.str
          env.item n buffer small enough some_str some_item got,
    )

    module _ (answer : List ℕ → List ℕ) (str : Ptr) (ne : str ≢ null) (apart : str ≢ env.str)
        (pos : 0 < length (answer (take (suc n) buffer)))
        (short : length (answer (take (suc n) buffer)) < 2 ^ 31) {e : Event} {rest : List Event}
        (there : w.slots ≡ e ∷ rest) where
      abbrev reply : List ℕ
      reply = answer (take (suc n) buffer)

      -- The state behind the worker's round.
      abbrev answered : World
      answered =
          let w1 = queued taken p (in_order c) rest str reply (length reply) in
          record w1 { strings = write w1.strings env.str none }

      asked : Holds taken.strings (block_of (env.str + header_bytes)) (copied buffer (suc n))
      asked =
          subst (λ q. Holds taken.strings q (copied buffer (suc n))) (omega arith)
            (Holds-new w.strings env.str (copied buffer (suc n)) some_str)

      respond-queued :
          respond answer str p (env.str + header_bytes) (suc n) taken
          ≡ done tt (queued taken p (in_order c) rest str reply (length reply))
      respond-queued = rw (
        in_strings-done taken (load (block_of (env.str + header_bytes))) (load-done asked),
        resume,
        take-take (suc n) buffer (0 ∷ []) enough,
        server_send-queued ctl p str reply (length reply) ne pos (omega arith) (omega arith) taken
            {rest = rest} (Holds-write held (in_order c)) refl there,
      )

      abbrev replied : World
      replied = queued taken p (in_order c) rest str reply (length reply)

      freed :
          free_str (env.str + header_bytes) replied.strings
          ≡ done tt (write replied.strings env.str none)
      freed =
          let back : block_of (env.str + header_bytes) ≡ env.str = omega arith in
          free_str-done (env.str + header_bytes) (omega arith)
            (Holds-write_ne asked (some (copied reply (length reply))) λ e. apart (e ∙ back))
          ∙ ap (λ q. done tt (write replied.strings q none)) back

      process_round-answered :
          w.received ≡ []
          → w.posts ≡ 0
          → process_round (respond answer str) arrived ≡ done handled answered
      unfolding process_round take_item handle_item
      process_round-answered empty none_posted = rw (
        none_posted,
        empty,
        respond-queued,
        resume,
        in_strings-done replied (free_str (env.str + header_bytes)) freed,
      )

      abbrev to_send : ConnObj
      to_send = loaded (in_order c) str (length reply)

      abbrev sent_off : ConnObj
      sent_off = record to_send { sendptr = null; sendlen = 0 }

      -- The state behind the event for writing.
      abbrev settled : World
      settled =
          let w1 = confirmed answered p to_send in
          watched
            (record w1 {
              strings = write w1.strings (block_of (str + header_bytes)) none;
              conns = write w1.conns p (some sent_off);
            })
            p sent_off rest read_only

      to_send-held : Holds answered.conns p to_send
      to_send-held = Holds-write (Holds-write held (in_order c)) to_send

      unsent : Holds answered.strings (block_of (str + header_bytes)) (copied reply (length reply))
      unsent =
          let string = copied reply (length reply) in
          subst (λ q. Holds answered.strings q string) (omega arith)
            (Holds-write_ne (Holds-new taken.strings str string ne) none λ e. apart (sym e))

      callback-settled :
          (env' : Replies) (listener : Ptr) (calls : Calls)
          → listener ≢ p
          → env'.so_error ≡ some 0
          → send_data env'.write (some (length reply)) fuel ≡ returned sent calls
          → callback ctl listener env' fuel p write_only answered ≡ done tt settled
      callback-settled env' listener calls other good out =
          let held' = Holds-write to_send-held (in_order to_send) in
          let sends =
            event_write-returned ctl (confirmed answered p to_send) p held' env'.write fuel
              (omega arith) pos {rest = rest} refl calls in
          rw (
            callback-confirmed ctl env' fuel p answered listener write_only to_send-held other good,
            sends.0 (copied reply (length reply)) unsent out,
          )

      -- `sendData`, whose first replies of the kernel but the one numbered `k` are taken again, and which
      -- then takes `m` bytes, fewer than there are.
      send_data-short :
          (env' : Replies) (k m : ℕ)
          → ((i : ℕ) → i < k → retries (length reply) (env'.write i 0 (length reply)) ≡ true)
          → env'.write k 0 (length reply) ≡ wrote m
          → m < length reply
          → k < fuel
          → send_data env'.write (some (length reply)) fuel
            ≡ returned sent (replicate (suc k) (0, length reply))
      send_data-short env' k m each part few round =
          let last : retries (length reply) (wrote m) ≡ false = ground (arith, few) in
          send_data_stop env'.write (length reply) pos short k fuel each (rw part last) round
          ∙ ap (λ r. returned (code_of r) (replicate (suc k) (0, length reply))) part

      -- A client sends bytes, a worker's callback answers them with `ServerSend`, and the kernel takes
      -- only a part of the answer, `m` of its bytes, after any replies that `sendData` repeats: the three
      -- rounds end without a crash. The answer is to just the bytes received. The part passes for the
      -- whole: the connection is connected with nothing to send and watched for reading again, and both
      -- strings are freed, so that no later event sends the rest. No other string is touched, the queue is
      -- empty, the semaphore 0, and the kernel was asked to watch for writing and then for reading. No item
      -- was queued before, the connection is not the listening one and in good order, `malloc` gives two
      -- strings apart and an item, `readData` reports the bytes, and the answer is 1 to 2^31 - 1 bytes.
      pub callback-respond :
          (env' : Replies) (listener : Ptr)
          → listener ≢ p
          → env.so_error ≡ some 0
          → env'.so_error ≡ some 0
          → env.item ≢ null
          → w.received ≡ []
          → w.posts ≡ 0
          → read_data (some env.read) recv_bytes fuel recv_buffer ≡ count (suc n) buffer
          → (k m : ℕ)
          → ((i : ℕ)
              → i < k
              → retries
                  (length (answer (take (suc n) buffer)))
                  (env'.write i 0 (length (answer (take (suc n) buffer))))
                ≡ true)
          → env'.write k 0 (length (answer (take (suc n) buffer))) ≡ wrote m
          → m < length (answer (take (suc n) buffer))
          → k < fuel
          → (w' : World) × ((do
            callback ctl listener env fuel p read_only
            _ ← process_round (respond answer str)
            callback ctl listener env' fuel p write_only)
                w
              ≡ done tt w')
            × Holds w'.conns p (record c { activity = connected; sendptr = null; sendlen = 0 })
            × ((w'.strings env.str ≡ none)
                × (w'.strings str ≡ none)
                × ((q : Ptr) → q ≢ env.str → q ≢ str → w'.strings q ≡ w.strings q))
            × ((w'.received ≡ []) × (w'.posts ≡ 0))
            × (w'.slots ≡ record { flags = wanted read_only; conn = p } ∷ rest)
            × (w'.calls
                ≡ (w.calls ++ ctl_mod c.fd (record { flags = wanted write_only; conn = p }) ∷ [])
                  ++ ctl_mod c.fd (record { flags = wanted read_only; conn = p }) ∷ [])
      unfolding write
      callback-respond env' listener other good good' some_item empty none_posted got k m each part
            few round =
          let back : block_of (str + header_bytes) ≡ str = omega arith in
          (
            settled,
            rw (
              callback-arrived listener other good some_item got,
              resume,
              process_round-answered empty none_posted,
              resume,
              callback-settled env' listener (replicate (suc k) (0, length reply)) other good'
                  (send_data-short env' k m each part few round),
            ),
            Holds-write (Holds-write to_send-held (in_order to_send)) sent_off,
            (
              ground (arith, back),
              ground (arith, back),
              λ q other_str other_reply. ground (arith, back),
            ),
            (refl, refl),
            refl,
            refl,
          )
