-- ===== src/Tcp/Setup/Tests.antt =====
-- Constructors on concrete results.
use rdma_project.Common.{ℕ, ◌≡◌, [], ◌∷◌}
use rdma_project.Tcp.Setup.{
  Call, peer_address, own_address, card_address, socket, bind, listen, accept, ready, exits,
  tcp_server, tcp_client,
}
use rdma_project.Tcp.Setup.Order.{tcp_server-in_order, tcp_client-in_order}

-- Sockets 5 and 6; `bind` fails on the second.
abbrev net : Call → ℕ
net socket = 5
net accept = 6
net _ = 0

abbrev in_use : Call → ℕ
in_use bind = 4294967295
in_use _ = 0

tcp_server-in_order_example :
    tcp_server net [] ≡ ready 6 (card_address ∷ own_address ∷ socket ∷ bind ∷ listen ∷ accept ∷ [])
tcp_server-in_order_example = tcp_server-in_order net

tcp_client-in_order_example :
    tcp_client in_use [] ≡ exits (peer_address ∷ socket ∷ card_address ∷ own_address ∷ bind ∷ [])
tcp_client-in_order_example = tcp_client-in_order in_use
