-- ===== src/Tcp/Socket/Receive.antt =====
-- What `receive_message` takes from the stream.
use rdma_project.Common.{
  ℕ, zero, suc, ◌+◌, ◌-◌, ◌<◌, ◌≤◌, ◌^◌, ◌≡◌, ◌⊎◌, refl, sym, ap, ◌∙◌, List, take, drop, arith,
  length, drop-drop, lt→ltb, le→ltb_false, dec_lt, overwrite, length-take, length-drop, inl, inr,
  take-append-take, overwrite_nil, overwrite-overwrite, length-overwrite,
}
use rdma_project.Host.{
  Kernel, Process, Outcome, done, count, failed, blocks, SysResult, exited, blocked, sys_recv,
}
use rdma_project.Host.Ints.{add_int-to_int, is_nonpositive-to_int}
use rdma_project.Host.Reliable.{Receives, IsBounded}
use rdma_project.Tcp.Socket.{receive_loop, receive_message}

-- The process after `n` bytes have been read in calls of `recv`, the next call being number `c`.
abbrev pub received : Process → ℕ → ℕ → Process
received s n c = record s { inbound = drop n s.inbound; calls = c }

-- The call returns with the next `n` bytes of the stream in `buffer` from index `off` on, has taken
-- those from the stream, and has changed nothing else.
pub record ReceivesInto (s : Process) (off n : ℕ) (buffer : List ℕ) (r : Outcome (List ℕ))
    : Type 0 where
  pub last : ℕ
  pub later : s.calls ≤ last
  pub result : r ≡ done (overwrite off (take n s.inbound) buffer) (received s n last)

module _ (K : Kernel) where
  sys_recv-count :
      (buffer : List ℕ) (off n k : ℕ) (s : Process)
      → K.recv s.calls n (length s.inbound) ≡ count k
      → sys_recv K buffer off n s
        ≡ done (k, overwrite off (take k s.inbound) buffer) (received s k (suc s.calls))
  unfolding sys_recv
  sys_recv-count buffer off n k s e = rw (e, sys_recv)

  receive_loop_step :
      (f size b k : ℕ) (buffer : List ℕ) (s : Process)
      → K.recv s.calls (size - b) (length s.inbound) ≡ count k
      → size < 2 ^ 31
      → b < size
      → 0 < k
      → k ≤ size - b
      → receive_loop K (suc f) size b buffer s
        ≡ receive_loop K f size
            (b + k)
            (overwrite b (take k s.inbound) buffer)
            (received s k (suc s.calls))
  unfolding receive_loop
  receive_loop_step f size b k buffer s e small lt pos le = rw (
    lt→ltb b size lt,
    sys_recv-count buffer b (size - b) k s e,
    is_nonpositive-to_int k pos (omega arith),
    add_int-to_int b k (omega arith) (omega arith),
  )

  receive_loop_end :
      (f size b : ℕ) (buffer : List ℕ) (s : Process)
      → size ≤ b
      → receive_loop K (suc f) size b buffer s ≡ done buffer s
  unfolding receive_loop
  receive_loop_end f size b buffer s le = rw (le→ltb_false b size le)

ReceivesInto-nothing :
    (s : Process) (off : ℕ) (buffer : List ℕ) → ReceivesInto s off 0 buffer (done buffer s)
ReceivesInto-nothing s off buffer = record {
  last = s.calls;
  later = omega arith;
  result = ap (λ z. done z s) (sym (overwrite_nil off buffer));
}

ReceivesInto-join :
    (s : Process) (b k r n c : ℕ) (buffer : List ℕ) {o : Outcome (List ℕ)}
    → s.calls ≤ c
    → k + r ≡ n
    → k ≤ length s.inbound
    → b ≤ length buffer
    → ReceivesInto (received s k c) (b + k) r (overwrite b (take k s.inbound) buffer) o
    → ReceivesInto s b n buffer o
ReceivesInto-join s b k r n c buffer h e got room rest = record {
  last = rest.last;
  later = omega (arith, rest.later);
  result =
      rw
        (
          rest.result,
          drop-drop r k s.inbound,
          overwrite-overwrite b k (take k s.inbound) (take r (drop k s.inbound)) buffer
              (omega (arith, length-take k s.inbound)) room,
          take-append-take k r s.inbound,
          e,
        )
        refl;
}

-- How a call of `recv` ends.
SysResult-cases : (r : SysResult) → (r ≡ blocks) ⊎ (r ≡ failed) ⊎ ((k : ℕ) × (r ≡ count k))
SysResult-cases blocks = inl refl
SysResult-cases failed = inr (inl refl)
SysResult-cases (count k) = inr (inr (k, refl))

module _ (K : Kernel) where
  -- A failed call, and the end of the stream, end the process.
  receive_loop_failed :
      (f size b : ℕ) (buffer : List ℕ) (s : Process)
      → b < size
      → K.recv s.calls (size - b) (length s.inbound) ≡ failed
      → receive_loop K (suc f) size b buffer s ≡ exited
  unfolding receive_loop sys_recv
  receive_loop_failed f size b buffer s lt e = rw (lt→ltb b size lt, e, sys_recv)

  receive_loop_closed :
      (f size b : ℕ) (buffer : List ℕ) (s : Process)
      → b < size
      → K.recv s.calls (size - b) (length s.inbound) ≡ count 0
      → receive_loop K (suc f) size b buffer s ≡ exited
  unfolding receive_loop
  receive_loop_closed f size b buffer s lt e =
      rw (lt→ltb b size lt, sys_recv-count K buffer b (size - b) 0 s e)

  pub receive_loop_blocks :
      (f size b : ℕ) (buffer : List ℕ) (s : Process)
      → b < size
      → K.recv s.calls (size - b) (length s.inbound) ≡ blocks
      → receive_loop K (suc f) size b buffer s ≡ blocked s
  unfolding receive_loop sys_recv
  receive_loop_blocks f size b buffer s lt e = rw (lt→ltb b size lt, e, sys_recv)

module _ (K : Kernel) (bounded : IsBounded K) where
  -- If the loop returns, whatever the kernel did, it has read all that was asked for.
  receive_loop_exact :
      (f size b : ℕ) (buffer : List ℕ) (s : Process) {d : List ℕ} {t : Process}
      → size < 2 ^ 31
      → b ≤ size
      → size ≤ length buffer
      → receive_loop K f size b buffer s ≡ done d t
      → (size - b ≤ length s.inbound) × ReceivesInto s b (size - b) buffer (done d t)
  unfolding receive_loop
  receive_loop_exact zero size b buffer s small le room r = cc
  receive_loop_exact (suc f) size b buffer s {d} {t} small le room r = elim (dec_lt b size) [
    | yes lt ↦ elim (SysResult-cases (K.recv s.calls (size - b) (length s.inbound))) [
      | inl e ↦ cc (sym (receive_loop_blocks K f size b buffer s lt e) ∙ r)
      | inr (inl e) ↦ cc (sym (receive_loop_failed K f size b buffer s lt e) ∙ r)
      | inr (inr (zero, e)) ↦ cc (sym (receive_loop_closed K f size b buffer s lt e) ∙ r)
      | inr (inr (suc k, e)) ↦
          let (asked, arrived) = bounded.recv_le s.calls (size - b) (length s.inbound) (suc k) e in
          let got = length-take (suc k) s.inbound in
          let same = length-overwrite b (take (suc k) s.inbound) buffer (omega arith) in
          let (there, rest) =
            receive_loop_exact f size (b + suc k) (overwrite b (take (suc k) s.inbound) buffer)
              (received s (suc k) (suc s.calls)) small (omega arith) (omega arith)
              (sym (receive_loop_step K f size b (suc k) buffer s e small lt (omega arith) asked)
                ∙ r) in
          (
            omega (arith, length-drop (suc k) s.inbound),
            ReceivesInto-join s b (suc k) (size - (b + suc k)) (size - b) (suc s.calls) buffer
                (omega arith) (omega arith) arrived (omega arith) rest,
          )
    ]
    | no finished ↦
        let none_left : size - b ≡ 0 = omega arith in
        (
          omega arith,
          rw (none_left, ← sym (receive_loop_end K f size b buffer s (omega arith)) ∙ r)
              (ReceivesInto-nothing s b buffer),
        )
  ]

  -- On any socket whose calls of `recv` count no more than was asked for and has arrived, failures
  -- and the end of the stream included: if `receive_message` returns from a message of less than 2^31
  -- bytes, for which the buffer has room, then that many bytes had arrived, exactly those are taken
  -- from the stream, and they are at the front of the buffer.
  pub receive_message_exact :
      (buffer_size : ℕ) (buffer : List ℕ) (s : Process) {d : List ℕ} {t : Process}
      → buffer_size < 2 ^ 31
      → buffer_size ≤ length buffer
      → receive_message K buffer_size buffer s ≡ done d t
      → (buffer_size ≤ length s.inbound) × ReceivesInto s 0 buffer_size buffer (done d t)
  unfolding receive_message
  receive_message_exact buffer_size buffer s {d} {t} small room r =
      let whole : buffer_size - 0 ≡ buffer_size = omega arith in
      let (there, into) =
        receive_loop_exact (suc buffer_size) buffer_size 0 buffer s small (omega arith) room r in
      (omega arith, rw whole at into)

module _ (K : Kernel) (ok : Receives K) where
  receive_loop-ReceivesInto :
      (f size b : ℕ) (buffer : List ℕ) (s : Process)
      → size < 2 ^ 31
      → b ≤ size
      → size ≤ length buffer
      → size - b ≤ length s.inbound
      → size - b < f
      → ReceivesInto s b (size - b) buffer (receive_loop K f size b buffer s)
  receive_loop-ReceivesInto zero size b buffer s small le room there fuel = absurd (omega arith)
  receive_loop-ReceivesInto (suc f) size b buffer s small le room there fuel =
      elim (dec_lt b size) [
        | yes lt ↦
            let (k, e, pos, asked, arrived) =
              ok.gives s.calls (size - b) (length s.inbound) (omega arith) (omega arith) in
            let got = length-take k s.inbound in
            let same = length-overwrite b (take k s.inbound) buffer (omega arith) in
            let rest =
              receive_loop-ReceivesInto f size (b + k) (overwrite b (take k s.inbound) buffer)
                (received s k (suc s.calls)) small (omega arith) (omega arith)
                (omega (arith, length-drop k s.inbound)) (omega arith) in
            rw (receive_loop_step K f size b k buffer s e small lt pos asked) (
              ReceivesInto-join s b k (size - (b + k)) (size - b) (suc s.calls) buffer (omega arith)
                (omega arith) arrived (omega arith) rest)
        | no finished ↦
            let none_left : size - b ≡ 0 = omega arith in
            rw (none_left, receive_loop_end K f size b buffer s (omega arith))
              (ReceivesInto-nothing s b buffer)
      ]

  -- When `recv` works, a message of less than 2^31 bytes has arrived and the buffer has room for it,
  -- `receive_message` returns with exactly those bytes at the front of the buffer and taken from the
  -- stream, however `recv` splits them.
  pub receive_message-overwrite :
      (buffer_size : ℕ) (buffer : List ℕ) (s : Process)
      → buffer_size < 2 ^ 31
      → buffer_size ≤ length buffer
      → buffer_size ≤ length s.inbound
      → ReceivesInto s 0 buffer_size buffer (receive_message K buffer_size buffer s)
  unfolding receive_message
  receive_message-overwrite buffer_size buffer s small room there =
      let whole : buffer_size - 0 ≡ buffer_size = omega arith in
      rw whole at (
        receive_loop-ReceivesInto (suc buffer_size) buffer_size 0 buffer s small (omega arith) room
          (omega arith) (omega arith))
