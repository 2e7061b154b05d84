-- ===== src/Cli.antt =====
-- ConnectionExperiments/main.cpp: the options, and the choice of the experiment. `argv` is the list of
-- the arguments, the name of the program included. `std::stoi` and `std::to_string` are parameters.
pub mod Options
pub mod Agreement
mod Tests
use text.Mathlib.Text.{◌==◌}
use Prim.Native.String.{String}
use rdma_project.Common.{
  ℕ, zero, suc, ◌+◌, ◌-◌, ◌^◌, List, [], ◌∷◌, Bool, true, false, if◌then◌else◌, leb, Option, none,
  some,
}
use rdma_project.Settings.{
  DataDirection, Parrallelism, single_thread, double_thread, Metric, throughput, latency, all,
  Connection, rdma, rpc, tcp, data_size, num_tuples, port,
}

-- An `int` is its bit pattern. `stoi` gives none where it throws.
pub record Conversions : Type 0 where
  pub to_string : ℕ → String
  pub stoi : String → Option ℕ

module _ {A B : Type 0} where
  infixl 5 ◌>>=◌
  abbrev pub ◌>>=◌ : Option A → (A → Option B) → Option B
  none >>= k = none
  some a >>= k = k a

-- `argv[i + 1]` for the arguments from `i` on: `argv[argc]` is NULL, of which no `string` can be made.
unfoldable pub next_arg : List String → Option String
next_arg [] = none
next_arg (arg ∷ rest) = some arg

unfoldable pub get_arg_value : List String → String → String → Option String
get_arg_value [] arg_name default_value = some default_value
get_arg_value (arg ∷ rest) arg_name default_value =
    if arg == arg_name then next_arg rest else get_arg_value rest arg_name default_value

-- The loops of `is_server` and `get_parallelism`.
unfoldable pub has_arg : List String → String → Bool
has_arg [] arg_name = false
has_arg (arg ∷ rest) arg_name = if arg == arg_name then true else has_arg rest arg_name

unfoldable pub get_server_ip : List String → Option String
get_server_ip argv = get_arg_value argv "-serverip" "127.0.0.1"

unfoldable pub metric_of : String → Metric
metric_of value =
    if value == "t"
    then throughput
    else if value == "l"
    then latency
    else if value == "all"
    then all
    else all

unfoldable pub get_test_metric : List String → Option Metric
get_test_metric argv = do value ← get_arg_value argv "-metric" "all"; some (metric_of value)

unfoldable pub connection_of : String → Connection
connection_of value =
    if value == "rdma"
    then rdma
    else if value == "tcp"
    then tcp
    else if value == "rpc"
    then rpc
    else rdma

unfoldable pub get_connection_type : List String → Option Connection
get_connection_type argv = do
  value ← get_arg_value argv "-connection" "rdma"
  some (connection_of value)

unfoldable pub is_server : List String → Bool
is_server argv = has_arg argv "-s"

unfoldable pub get_direction : List String → DataDirection
get_direction [] = DataDirection.read
get_direction (arg ∷ rest) =
    if arg == "-w"
    then DataDirection.write
    else if arg == "-r"
    then DataDirection.read
    else if arg == "-c"
    then DataDirection.two_sided
    else get_direction rest

unfoldable pub get_parallelism : List String → Parrallelism
get_parallelism argv = if has_arg argv "-double" then double_thread else single_thread

pub data Server : Type 0 where
  rdma_server tcp_server : (port : String) → Server

pub data Client : Type 0 where
  rdma_client tcp_client : (ip port : String) → Client

-- A call of `run_throughput_tests` or `run_latency_tests`.
pub data Task : Type 0 where
  throughput_tests : (data_size : ℕ) → Task
  latency_tests : Task

-- What the program does: the tests of a server, or of a client; `exits` is `exit(-1)`, `throws` an
-- exception out of `main`.
pub data Program : Type 0 where
  serves : Server → List Task → Program
  connects : Client → List Task → Program
  exits : Program
  throws : Program

-- The conversion of an `int` to `size_t`.
abbrev pub to_size : ℕ → ℕ
to_size n = if leb (2 ^ 31) n then n + (2 ^ 64 - 2 ^ 32) else n

-- The `switch` on the metric, which `main` has for either end.
unfoldable pub tasks : Metric → ℕ → List Task
tasks throughput size = throughput_tests (to_size size) ∷ []
tasks latency size = latency_tests ∷ []
tasks all size = throughput_tests (to_size size) ∷ latency_tests ∷ []

module _ (C : Conversions) where
  unfoldable pub get_data_size : List String → Option ℕ
  get_data_size argv = do
    value ← get_arg_value argv "-datasize" (C.to_string data_size)
    C.stoi value

  unfoldable pub get_num_tuples : List String → Option ℕ
  get_num_tuples argv = do
    value ← get_arg_value argv "-numtuples" (C.to_string num_tuples)
    C.stoi value

  -- None is `exit(-1)`.
  unfoldable pub make_server : Connection → Option Server
  make_server rdma = some (rdma_server (C.to_string port))
  make_server tcp = some (tcp_server (C.to_string port))
  make_server rpc = none

  unfoldable pub make_client : Connection → String → Option Client
  make_client rdma ip = some (rdma_client ip (C.to_string port))
  make_client tcp ip = some (tcp_client ip (C.to_string port))
  make_client rpc ip = none

  unfoldable pub serve : Option Server → List Task → Program
  serve none ts = exits
  serve (some server) ts = serves server ts

  unfoldable pub connect : Option Client → List Task → Program
  connect none ts = exits
  connect (some client) ts = connects client ts

  -- The part of `main` behind `is_server`.
  unfoldable pub start : List String → Connection → List Task → Option Program
  start argv connection ts =
      if is_server argv
      then some (serve (make_server connection) ts)
      else (do server_ip ← get_server_ip argv; some (connect (make_client connection server_ip) ts))

  -- The options in the order that `main` reads them; the number of tuples and the direction are not
  -- used.
  unfoldable pub run_main : List String → Option Program
  run_main argv = do
    size ← get_data_size argv
    unused_tuples ← get_num_tuples argv
    let unused_direction = get_direction argv
    metric ← get_test_metric argv
    connection ← get_connection_type argv
    start argv connection (tasks metric size)

  unfoldable pub main : List String → Program
  main argv = elim (run_main argv) [ none ↦ throws | some p ↦ p ]
