-- ===== src/Tcp/Socket/Send.antt =====
-- What `send_tcp_message` puts on the stream.
use Prim.Native.Nat.add
use rdma_project.Common.{
  ℕ, zero, suc, ◌+◌, ◌-◌, ◌<◌, ◌≤◌, ◌^◌, ◌≡◌, refl, sym, ap, ◌∙◌, List, [], ◌++◌, take, drop, arith,
  append_assoc, append-nil, take-drop-append-take, lt→ltb, dec_lt, le→ltb_false,
}
use rdma_project.Host.{Kernel, Process, Outcome, done, count, failed, sys_send}
use rdma_project.Host.Ints.{minus_one, add_int-to_int, add_int-minus_one}
use rdma_project.Host.Reliable.{Sends, Sends-later}
use rdma_project.Tcp.Socket.{send_loop, send_tcp_message}

-- The process after `bytes` have gone out in calls of `send`, the next call being number `c`.
abbrev pub sent : Process → List ℕ → ℕ → Process
sent s bytes c = record s { outbound = s.outbound ++ bytes; calls = c }

-- The call returns with exactly `bytes` added to the stream, and the process otherwise as it was.
pub record SendsOut (s : Process) (bytes : List ℕ) (r : Outcome (Unit {0})) : Type 0 where
  pub last : ℕ
  pub later : s.calls ≤ last
  pub result : r ≡ done tt (sent s bytes last)

-- Two pieces, one behind the other.
pub SendsOut-join :
    (s : Process) (xs ys : List ℕ) {c : ℕ} {r : Outcome (Unit {0})}
    → s.calls ≤ c
    → SendsOut (sent s xs c) ys r
    → SendsOut s (xs ++ ys) r
SendsOut-join s xs ys h o = record {
  last = o.last;
  later = omega (arith, o.later);
  result =
      o.result
      ∙ ap (λ z. done tt (record s { outbound = z; calls = o.last }))
          (append_assoc s.outbound xs ys);
}

SendsOut-nothing : (s : Process) → SendsOut s [] (done tt s)
SendsOut-nothing s = record {
  last = s.calls;
  later = omega arith;
  result = ap (λ z. done tt (record s { outbound = z })) (sym (append-nil s.outbound));
}

SendsOut-failed : (s : Process) → SendsOut s [] (done tt (sent s [] (suc s.calls)))
SendsOut-failed s = record { last = suc s.calls; later = omega arith; result = refl }

-- A piece of `k` bytes from index `b` on, and what follows it.
SendsOut-take :
    (s : Process) (m : List ℕ) (b k r n c : ℕ) {o : Outcome (Unit {0})}
    → s.calls ≤ c
    → k + r ≡ n
    → SendsOut (sent s (take k (drop b m)) c) (take r (drop (b + k) m)) o
    → SendsOut s (take n (drop b m)) o
SendsOut-take s m b k r n c h e rest =
    rw (← take-drop-append-take b k r n m e) (SendsOut-join s (take k (drop b m)) _ h rest)

module _ (K : Kernel) where
  sys_send-count :
      (m : List ℕ) (n k : ℕ) (s : Process)
      → K.send s.calls n ≡ count k
      → sys_send K m n s ≡ done k (sent s (take k m) (suc s.calls))
  unfolding sys_send
  sys_send-count m n k s e = rw (e, sys_send)

  send_loop_step :
      (f : ℕ) (m : List ℕ) (size b k : ℕ) (s : Process)
      → K.send s.calls (size - b) ≡ count k
      → size < 2 ^ 31
      → b < size
      → k ≤ size - b
      → send_loop K (suc f) m size b s
        ≡ send_loop K f m size (b + k) (sent s (take k (drop b m)) (suc s.calls))
  unfolding send_loop
  send_loop_step f m size b k s e small lt le = rw (
    lt→ltb b size lt,
    sys_send-count (drop b m) (size - b) k s e,
    add_int-to_int b k (omega arith) (omega arith),
  )

  send_loop_end :
      (f : ℕ) (m : List ℕ) (size b : ℕ) (s : Process)
      → size ≤ b
      → send_loop K (suc f) m size b s ≡ done tt s
  unfolding send_loop
  send_loop_end f m size b s le = rw (le→ltb_false b size le)

  pub send_loop-SendsOut :
      (f : ℕ) (m : List ℕ) (size b : ℕ) (s : Process)
      → Sends K s.calls
      → size < 2 ^ 31
      → b ≤ size
      → size - b < f
      → SendsOut s (take (size - b) (drop b m)) (send_loop K f m size b s)
  send_loop-SendsOut zero m size b s ok small le fuel = absurd (omega arith)
  send_loop-SendsOut (suc f) m size b s ok small le fuel = elim (dec_lt b size) [
    | yes lt ↦
        let (k, e, pos, fits) = ok.takes s.calls (size - b) (omega arith) (omega arith) in
        let rest =
          send_loop-SendsOut f m size (b + k) (sent s (take k (drop b m)) (suc s.calls))
            (Sends-later (omega arith) ok) small (omega arith) (omega arith) in
        SendsOut-take s m b k (size - (b + k)) (size - b) (suc s.calls) (omega arith) (omega arith)
          (rw (send_loop_step f m size b k s e small lt fits) rest)
    | no finished ↦
        let none_left : size - b ≡ 0 = omega arith in
        rw (none_left, send_loop_end f m size b s (omega arith)) (SendsOut-nothing s)
  ]

  -- On a socket that accepts data, `send_tcp_message` of less than 2^31 bytes returns after exactly
  -- the first `size` bytes of the message have gone out, in order, however the kernel splits them.
  pub send_tcp_message-take :
      (message : List ℕ) (size : ℕ) (s : Process)
      → Sends K s.calls
      → size < 2 ^ 31
      → SendsOut s (take size message) (send_tcp_message K message size s)
  unfolding send_tcp_message
  send_tcp_message-take message size s ok small =
      let whole : size - 0 ≡ size = omega arith in
      rw whole at (
        send_loop-SendsOut (suc (suc (suc size))) message size 0 s ok small (omega arith)
          (omega arith))

  sys_send-failed :
      (m : List ℕ) (n : ℕ) (s : Process)
      → K.send s.calls n ≡ failed
      → sys_send K m n s ≡ done minus_one (sent s [] (suc s.calls))
  unfolding sys_send
  sys_send-failed m n s e =
      rw (e, sys_send)
        (ap (λ z. done minus_one (record s { outbound = z; calls = suc s.calls }))
          (sym (append-nil s.outbound)))

  -- A failed call takes the loop one byte back.
  send_loop_failed :
      (f : ℕ) (m : List ℕ) (size b : ℕ) (s : Process)
      → K.send s.calls (size - (b + 1)) ≡ failed
      → b + 1 < size
      → size < 2 ^ 31
      → send_loop K (suc f) m size (b + 1) s ≡ send_loop K f m size b (sent s [] (suc s.calls))
  unfolding send_loop
  send_loop_failed f m size b s e lt small = rw (
    lt→ltb (b + 1) size lt,
    sys_send-failed (drop (b + 1) m) (size - (b + 1)) s e,
    add_int-minus_one b (omega arith),
  )

  -- When the first call of `send` fails for a message that is not empty (of less than 2^64 bytes),
  -- `send_tcp_message` returns all the same, with nothing sent: the -1 that it adds to a `size_t` of
  -- 0 makes the loop end.
  pub send_tcp_message_lost :
      (message : List ℕ) (size : ℕ) (s : Process)
      → K.send s.calls size ≡ failed
      → 0 < size
      → size < 2 ^ 64
      → SendsOut s [] (send_tcp_message K message size s)
  unfolding send_tcp_message send_loop
  send_tcp_message_lost message size s e pos small =
      let asked : K.send s.calls (size - 0) ≡ failed = ap (K.send s.calls) (omega arith) ∙ e in
      let ended =
        send_loop_end (suc size) message size minus_one (sent s [] (suc s.calls)) (omega arith) in
      rw (lt→ltb 0 size pos, sys_send-failed message (size - 0) s asked, ended) (SendsOut-failed s)

  -- When `send` takes `b + 1` of the bytes of a message (not all, and of less than 2^31), fails once
  -- and then accepts data again, byte `b` goes out twice.
  pub send_tcp_message_repeats :
      (message : List ℕ) (size b : ℕ) (s : Process)
      → K.send s.calls size ≡ count (b + 1)
      → K.send (s.calls + 1) (size - (b + 1)) ≡ failed
      → Sends K (s.calls + 2)
      → b + 1 < size
      → size < 2 ^ 31
      → SendsOut s
          (take (b + 1) message ++ take (size - b) (drop b message))
          (send_tcp_message K message size s)
  unfolding send_tcp_message
  send_tcp_message_repeats message size b s first second ok lt small =
      rw
        (
          send_loop_step (suc (suc size)) message size 0 (b + 1) s
              (ap (K.send s.calls) (omega arith) ∙ first) small (omega arith) (omega arith),
          add.zero (b + 1),
          send_loop_failed (suc size) message size b (sent s (take (b + 1) message) (suc s.calls))
              (ap (λ t. K.send t (size - (b + 1))) (omega arith) ∙ second) lt small,
        )
        (SendsOut-join s (take (b + 1) message) _ (omega arith) (
          SendsOut-join (sent s (take (b + 1) message) (suc s.calls)) [] _ (omega arith) (
            send_loop-SendsOut (suc size) message size b _ (Sends-later (omega arith) ok) small
              (omega arith) (omega arith))))
