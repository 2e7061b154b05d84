-- ===== src/Program/Tcp/Exchange.antt =====
-- A client and its server over TCP, each on what the other has sent: no reply is there before the
-- server has sent it.
use Prim.Native.String.{String}
use rdma_project.Common.{
  ℕ, zero, suc, ◌+◌, ◌<◌, ◌≤◌, ◌≡◌, refl, sym, ap, ◌∙◌, List, [], ◌∷◌, ◌++◌, arith, length,
  replicate, drop_all, length-replicate, dec_lt,
}
use rdma_project.Cli.{Conversions, Task, tcp_client, tcp_server, connects, serves, main}
use rdma_project.Cli.Agreement.{main-append}
use rdma_project.Host.{Kernel, Process, Outcome, done, exited, blocked, out_of_fuel}
use rdma_project.Host.Effect.{after}
use rdma_project.Host.Reliable.{Sends, Receives, Patient}
use rdma_project.Measure.{Floating}
use rdma_project.Utils.RandomData.{Random}
use rdma_project.Program.Tcp.{run_tcp_client, run_tcp_server}
use rdma_project.Program.Tcp.Transfer.{
  HasRoom, bytes_of, replies_of, files_of, run_tcp_client-Effect, run_tcp_server-Effect,
}
use rdma_project.Program.Tcp.Waits.{
  bytes_until, bytes_until-bytes_of, run_tcp_client-Waits, run_tcp_server-Waits,
}

-- A process that has just connected, once some bytes have arrived.
abbrev pub arrived : List ℕ → Process → Process
arrived bytes s = record s { outbound = []; inbound = bytes }

-- What a run has sent, whether it has returned or waits for more to arrive.
abbrev pub sent : {A : Type 0} → Outcome A → List ℕ
sent (done a s) = s.outbound
sent (blocked s) = s.outbound
sent exited = []
sent out_of_fuel = []

module _ (Kc Ks : Kernel) (F : Floating) (c v : Process) where
  -- What the server has sent after `n` turns. In each the client gets as far as it can on the replies
  -- so far, and then the server on what the client has sent.
  abbrev pub replies_after : (ts us : List Task) (n : ℕ) → List ℕ
  replies_after ts us zero = []
  replies_after ts us (suc n) = sent (
      run_tcp_server Ks us
        (arrived (sent (run_tcp_client Kc F ts (arrived (replies_after ts us n) c))) v))

  module _ (okc : Sends Kc c.calls) (rc : Receives Kc) (pc : Patient Kc) (rand : Random Kc)
      (oks : Sends Ks v.calls) (rs : Receives Ks) (ps : Patient Ks) (ts : List Task)
      (room : HasRoom ts) where
    -- The client on `k` replies, fewer than it needs.
    client_turn :
        (k : ℕ)
        → k < replies_of ts
        → length (sent (run_tcp_client Kc F ts (arrived (replicate k b'y') c)))
          ≡ bytes_until ts (suc k)
    client_turn k few =
        let (out, many, w) =
          run_tcp_client-Waits Kc F rc pc rand k ts (arrived (replicate k b'y') c) okc room
            (length-replicate k b'y') few in
        ap (λ r. length (sent r)) w.result ∙ ap length w.sent ∙ many

    -- The server on the bytes of `k` tests.
    server_turn :
        (k : ℕ) (bytes : List ℕ)
        → k ≤ replies_of ts
        → length bytes ≡ bytes_until ts k
        → sent (run_tcp_server Ks ts (arrived bytes v)) ≡ replicate k b'y'
    server_turn k bytes le e = elim (dec_lt k (replies_of ts)) [
      | yes few ↦
          let w = run_tcp_server-Waits Ks rs ps k ts (arrived bytes v) oks room e few in
          ap sent w.result ∙ w.sent
      | no behind ↦
          let all_of : k ≡ replies_of ts = omega (arith, le, behind) in
          let whole = ap (bytes_until ts) all_of ∙ bytes_until-bytes_of ts in
          let d =
            run_tcp_server-Effect Ks rs ts (arrived bytes v) oks room (omega (arith, e, whole)) in
          ap sent d.result ∙ ap (λ n. replicate n b'y') (sym all_of)
    ]

    -- Each turn brings one reply.
    turns : (n : ℕ) → n ≤ replies_of ts → replies_after ts ts n ≡ replicate n b'y'
    turns zero le = refl
    turns (suc n) le =
        rw (turns n (omega (arith, le)))
          (server_turn (suc n) _ le (client_turn n (omega (arith, le))))

  -- A client program over TCP, and the program with the same arguments and `-s` behind them, with
  -- data that are not empty and leave 2^31 to a `size_t`, on sockets that send and receive when they
  -- can and wait when nothing has arrived, and with a source of random bytes that works. Let the two
  -- take turns, each getting as far as it can on what the other has sent by then; nothing has
  -- been sent at first. After one turn for each test both get through their tests. Then each
  -- has read all that the other has sent, which is as many bytes as all tests have one way and one `y`
  -- for each test the other way, and the client has left the files of all tests open, the server none.
  pub tcp_programs_finish :
      (C : Conversions) (argv : List String) {ip p q : String} {ts us : List Task}
      → main C argv ≡ connects (tcp_client ip p) ts
      → main C (argv ++ "-s" ∷ []) ≡ serves (tcp_server q) us
      → HasRoom ts
      → Sends Kc c.calls
      → Receives Kc
      → Patient Kc
      → Random Kc
      → Sends Ks v.calls
      → Receives Ks
      → Patient Ks
      → (c' : Process) × (v' : Process) × (run_tcp_client Kc F ts
            (arrived (replies_after ts us (replies_of ts)) c)
          ≡ done tt c')
        × (run_tcp_server Ks us (arrived c'.outbound v) ≡ done tt v')
        × (v'.outbound ≡ replies_after ts us (replies_of ts))
        × (v'.outbound ≡ replicate (replies_of ts) b'y')
        × (length c'.outbound ≡ bytes_of ts)
        × (c'.inbound ≡ [])
        × (v'.inbound ≡ [])
        × (c'.fds ≡ c.fds + files_of ts)
        × (v'.fds ≡ v.fds)
  tcp_programs_finish C argv {ip} {p} {q} {ts} {us} client server room okc rc pc rand oks rs ps =
      let (s, runs, matches) = main-append C argv client in
      let same : us ≡ ts = cc in
      let n = replies_of ts in
      let replies : replies_after ts us n ≡ replicate n b'y' =
        ap (λ z. replies_after ts z n) same
        ∙ turns okc rc pc rand oks rs ps ts room n (omega arith) in
      let many = ap length replies ∙ length-replicate n b'y' in
      let (out, counted, e) =
        run_tcp_client-Effect Kc F rc rand ts (arrived (replies_after ts us n) c) okc room
          (omega (arith, many)) in
      let d = run_tcp_server-Effect Ks rs ts (arrived out v) oks room (omega (arith, counted)) in
      (
        after (arrived (replies_after ts us n) c) out n (files_of ts) e.last,
        after (arrived out v) (replicate n b'y') (bytes_of ts) 0 d.last,
        e.result,
        ap (λ z. run_tcp_server Ks z (arrived out v)) same ∙ d.result,
        sym replies,
        refl,
        counted,
        drop_all n _ (omega (arith, many)),
        drop_all (bytes_of ts) out (omega (arith, counted)),
        refl,
        omega arith,
      )
