-- ===== src/Tcp/Setup/Order.antt =====
-- Which calls the constructors make, and when they give a socket.
use rdma_project.Common.{ℕ, ◌≡◌, List, [], ◌∷◌, ◌++◌, Bool, true, false, if◌then◌else◌, arith}
use rdma_project.Host.Ints.{is_negative}
use rdma_project.Tcp.Setup.{
  Call, peer_address, own_address, card_address, socket, bind, listen, accept, connect, Setup,
  ready, exits, no_socket, tcp_server, tcp_client,
}

-- The calls in order, each with whether its failure ends the program; the first failure that counts
-- is the last call.
abbrev pub in_order : (net : Call → ℕ) (done : List Call) → List (Call × Bool) → ℕ → Setup ℕ
in_order net done [] sock = ready sock done
in_order net done ((call, true) ∷ calls) sock =
    if is_negative (net call)
    then exits (done ++ call ∷ [])
    else in_order net (done ++ call ∷ []) calls sock
in_order net done ((call, false) ∷ calls) sock = in_order net (done ++ call ∷ []) calls sock

module _ (net : Call → ℕ) where
  -- The server's constructor takes the own address, makes a socket, binds it, listens and accepts: it
  -- gives the accepted socket when none of these fails, and ends the program behind the first that
  -- does.
  pub tcp_server-in_order :
      tcp_server net []
      ≡ in_order net []
          ((card_address, false)
            ∷ (own_address, true)
            ∷ (socket, true)
            ∷ (bind, true)
            ∷ (listen, true)
            ∷ (accept, true)
            ∷ [])
          (net accept)
  unfolding tcp_server
  tcp_server-in_order = ground arith

  -- The client's constructor looks for the server's address. When it is not found, the constructor
  -- returns without a socket, and does not end the program. Otherwise it makes a socket, takes the own
  -- address, binds and connects: it gives the socket when none of these fails, and ends the program
  -- behind the first that does.
  pub tcp_client-in_order : tcp_client net [] ≡ (
      if is_negative (net peer_address)
      then no_socket (peer_address ∷ [])
      else in_order net
          (peer_address ∷ [])
          ((socket, true)
            ∷ (card_address, false)
            ∷ (own_address, true)
            ∷ (bind, true)
            ∷ (connect, true)
            ∷ [])
          (net socket))
  unfolding tcp_client
  tcp_client-in_order = ground arith
