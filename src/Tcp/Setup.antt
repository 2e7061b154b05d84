-- ===== src/Tcp/Setup.antt =====
-- The constructors of TcpClient and TcpServer in ConnectionExperiments/TcpClient.cpp and
-- TcpServer.cpp: the calls of the operating system that set a connection up, in order. What a call
-- returns, an int as a bit pattern, is a parameter.
pub mod Order
mod Tests
use rdma_project.Common.{ℕ, List, [], ◌∷◌, ◌++◌, if◌then◌else◌}
use rdma_project.Host.Ints.{is_negative}

-- `getaddrinfo` for the server's address and for the own one; `get_ib_card_address` of utils.
pub data Call : Type 0 where
  peer_address own_address card_address socket bind listen accept connect : Call

-- A constructor so far, with the calls it has made: it goes on with a value, has ended the program,
-- or has returned without a socket.
pub data Setup (A : Type 0) : Type 0 where
  ready : A → List Call → Setup A
  exits : List Call → Setup A
  no_socket : List Call → Setup A

abbrev pub Steps : Type 0 → Type 0
Steps A = List Call → Setup A

module _ {A B : Type 0} where
  abbrev pub and_then : Setup A → (A → Steps B) → Setup B
  and_then (ready a calls) k = k a calls
  and_then (exits calls) k = exits calls
  and_then (no_socket calls) k = no_socket calls

  infixl 5 ◌>>=◌ ◌>>◌
  abbrev pub ◌>>=◌ : Steps A → (A → Steps B) → Steps B
  m >>= k = λ calls. and_then (m calls) k

  abbrev pub ◌>>◌ : Steps A → Steps B → Steps B
  m >> n = m >>= λ _. n

abbrev pub pure : {A : Type 0} → A → Steps A
pure a = λ calls. ready a calls

module _ (net : Call → ℕ) where
  abbrev pub make : Call → Steps ℕ
  make call calls = ready (net call) (calls ++ call ∷ [])

  -- `if (status < 0) exit(-1);`
  abbrev pub check : ℕ → Steps (Unit {0})
  check status calls = if is_negative status then exits calls else ready tt calls

  -- `if (status < 0) return;`
  abbrev pub check_return : ℕ → Steps (Unit {0})
  check_return status calls = if is_negative status then no_socket calls else ready tt calls

  -- The client's socket. Nothing tests what `get_ib_card_address` returns.
  unfoldable pub tcp_server : Steps ℕ
  tcp_server = do
    unused_status ← make card_address
    addr_info_status ← make own_address
    check addr_info_status
    sock ← make socket
    check sock
    bind_status ← make bind
    check bind_status
    listen_status ← make listen
    check listen_status
    client_socket ← make accept
    check client_socket
    pure client_socket

  -- The server's socket.
  unfoldable pub tcp_client : Steps ℕ
  tcp_client = do
    addr_info_status ← make peer_address
    check_return addr_info_status
    server_socket ← make socket
    check server_socket
    unused_status ← make card_address
    own_status ← make own_address
    check own_status
    bind_status ← make bind
    check bind_status
    connect_status ← make connect
    check connect_status
    pure server_socket
