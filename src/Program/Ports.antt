-- ===== src/Program/Ports.antt =====
-- Where the program of a client looks for that of its server.
use Prim.Native.String.{String}
use mathlib.Core.Option as Option
use rdma_project.Common.{ℕ, ◌≡◌, refl, ap, ◌∙◌, subst, List, [], ◌∷◌, ◌++◌}
use rdma_project.Cli.{Conversions, Task, rdma_client, rdma_server, connects, serves, main}
use rdma_project.Cli.Agreement.{main-append, Matches}
use rdma_project.Rdma.Setup.{RdmaClient, make_rdma_client, make_rdma_server}

kept_port :
    (ip : String) (o : Option.Option ℕ)
    → Option.map
        (λ (c : RdmaClient). c.server_port)
        (Option.map (λ (n : ℕ). record { server_ip = ip; server_port = n }) o)
      ≡ o
kept_port ip Option.none = refl
kept_port ip (Option.some n) = refl

-- A client program over RDMA, and the program with the same arguments and `-s` behind them: the port
-- that the constructor of the client keeps is the one that the constructor of the server binds, or
-- both constructors throw.
pub programs_same_port :
    (C : Conversions) (argv : List String) {ip p q : String} {ts us : List Task}
    → main C argv ≡ connects (rdma_client ip p) ts
    → main C (argv ++ "-s" ∷ []) ≡ serves (rdma_server q) us
    → Option.map (λ (c : RdmaClient). c.server_port) (make_rdma_client C ip p)
      ≡ make_rdma_server C q
unfolding make_rdma_client make_rdma_server
programs_same_port C argv {ip} {p} {q} {ts} {us} client server =
    let (s, runs, matches) = main-append C argv client in
    let same : s ≡ rdma_server q = cc in
    let ports : p ≡ q = subst (Matches (rdma_client ip p)) same matches in
    kept_port ip (C.stoi p) ∙ ap C.stoi ports
