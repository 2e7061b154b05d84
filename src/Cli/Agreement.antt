-- ===== src/Cli/Agreement.antt =====
-- A server started with the options of a client, and `-s` behind them, runs the same tests.
use text.Mathlib.Text.{◌==◌}
use text.Mathlib.TextEquality.{eq_iff}
use text.Mathlib.TextPositions.{eq_refl}
use Prim.Native.String.{String}
use rdma_project.Common.{
  ℕ, ◌≡◌, ◌≢◌, refl, sym, ap, ◌∙◌, subst, List, [], ◌∷◌, ◌++◌, Bool, true, false, Option, none,
  some, arith, if◌then◌else◌, inl, inr, Bool-cases,
}
use rdma_project.Settings.{Metric, Connection, rdma, tcp, rpc, port}
use rdma_project.Cli.{
  Conversions, ◌>>=◌, get_arg_value, next_arg, has_arg, is_server, get_server_ip, get_test_metric,
  get_connection_type, get_data_size, get_num_tuples, Task, tasks, Server, rdma_server, tcp_server,
  Client, rdma_client, tcp_client, Program, serves, connects, throws, make_server, make_client,
  serve, connect, start, run_main, main,
}

-- The client reaches the server: the same kind of connection, and the same port.
abbrev pub Matches : Client → Server → Type 0
Matches (rdma_client ip p) (rdma_server q) = p ≡ q
Matches (tcp_client ip p) (tcp_server q) = p ≡ q
Matches _ _ = ⊥

module _ {A B : Type 0} where
  bind-some :
      (m : Option A) (k : A → Option B) {b : B}
      → (m >>= k) ≡ some b
      → (a : A) × (m ≡ some a) × (k a ≡ some b)
  bind-some none k e = absurd cc
  bind-some (some a) k e = (a, refl, e)

  some-bind :
      {m : Option A} {a : A} (k : A → Option B) {b : B}
      → m ≡ some a
      → k a ≡ some b
      → (m >>= k) ≡ some b
  some-bind k e f = ap (λ m. m >>= k) e ∙ f

some_inj : {A : Type 0} {a b : A} → some a ≡ some b → a ≡ b
some_inj e = cc

module _ {A : Type 0} {b : Bool} (x y : A) {z : A} where
  if_true : b ≡ true → (if b then x else y) ≡ z → x ≡ z
  if_true p e = ap (λ c. if c then x else y) (sym p) ∙ e

  if_false : b ≡ false → (if b then x else y) ≡ z → y ≡ z
  if_false p e = ap (λ c. if c then x else y) (sym p) ∙ e

next_arg-append :
    (args more : List String) {v : String}
    → next_arg args ≡ some v
    → next_arg (args ++ more) ≡ some v
unfolding next_arg
next_arg-append [] more e = absurd cc
next_arg-append (arg ∷ args) more e = e

-- A further argument that is not the option's name changes no option that has a value.
get_arg_value-append :
    (args : List String) (name default_value : String) {v : String}
    → get_arg_value args name default_value ≡ some v
    → "-s" ≢ name
    → get_arg_value (args ++ "-s" ∷ []) name default_value ≡ some v
unfolding get_arg_value
get_arg_value-append [] name d e other = ground (arith, eq_iff "-s" name)
get_arg_value-append (arg ∷ args) name d {v} e other = elim (Bool-cases (arg == name)) [
  | inl same ↦ rw same (next_arg-append args ("-s" ∷ []) (if_true _ _ same e))
  | inr differs ↦ rw differs (get_arg_value-append args name d (if_false _ _ differs e) other)
]

option-append :
    {B : Type 0} (args : List String) (name default_value : String) (k : String → Option B) {b : B}
    → (get_arg_value args name default_value >>= k) ≡ some b
    → "-s" ≢ name
    → (get_arg_value (args ++ "-s" ∷ []) name default_value >>= k) ≡ some b
option-append args name d k e other =
    let (v, found, there) = bind-some (get_arg_value args name d) k e in
    rw (get_arg_value-append args name d found other) there

has_arg-append : (args : List String) (name : String) → has_arg (args ++ name ∷ []) name ≡ true
unfolding has_arg
has_arg-append [] name = rw (eq_refl name) refl
has_arg-append (arg ∷ args) name = ground (arith, has_arg-append args name)

module _ (C : Conversions) where
  main_lem :
      (r : Option Program) {c : Client} {ts : List Task}
      → (elim r [ none ↦ throws | some p ↦ p ]) ≡ connects c ts
      → r ≡ some (connects c ts)
  main_lem none e = absurd cc
  main_lem (some p) e = ap some e

  serve-connect :
      (connection : Connection) (ip : String) (ts : List Task) {c : Client} {us : List Task}
      → connect C (make_client C connection ip) ts ≡ connects c us
      → (s : Server) × (serve C (make_server C connection) ts ≡ serves s us) × Matches c s
  unfolding make_client make_server serve connect
  serve-connect rdma ip ts {c} {us} e =
      let client : rdma_client ip (C.to_string port) ≡ c = cc in
      (
        rdma_server (C.to_string port),
        cc,
        subst (λ z. Matches z (rdma_server (C.to_string port))) client refl,
      )
  serve-connect tcp ip ts {c} {us} e =
      let client : tcp_client ip (C.to_string port) ≡ c = cc in
      (
        tcp_server (C.to_string port),
        cc,
        subst (λ z. Matches z (tcp_server (C.to_string port))) client refl,
      )
  serve-connect rpc ip ts e = absurd cc

  serve_lem :
      (server : Option Server) (ts : List Task) {c : Client} {us : List Task}
      → serve C server ts ≢ connects c us
  unfolding serve
  serve_lem none ts e = cc
  serve_lem (some s) ts e = cc

  get_test_metric-append :
      (argv : List String) {v : Metric}
      → get_test_metric argv ≡ some v
      → get_test_metric (argv ++ "-s" ∷ []) ≡ some v
  unfolding get_test_metric
  get_test_metric-append argv e =
      option-append argv "-metric" _ _ e (ground (arith, eq_iff "-s" "-metric"))

  get_connection_type-append :
      (argv : List String) {v : Connection}
      → get_connection_type argv ≡ some v
      → get_connection_type (argv ++ "-s" ∷ []) ≡ some v
  unfolding get_connection_type
  get_connection_type-append argv e =
      option-append argv "-connection" _ _ e (ground (arith, eq_iff "-s" "-connection"))

  -- A program that is a client's has the server of its options.
  start-append :
      (argv : List String) (connection : Connection) (ts : List Task) {c : Client} {us : List Task}
      → start C argv connection ts ≡ some (connects c us)
      → (s : Server) × (start C (argv ++ "-s" ∷ []) connection ts ≡ some (serves s us))
        × Matches c s
  unfolding start is_server
  start-append argv connection ts {c} {us} e = elim (Bool-cases (has_arg argv "-s")) [
    | inl server ↦
        absurd (serve_lem (make_server C connection) ts (some_inj (if_true _ _ server e)))
    | inr client ↦
        let (ip, _, there) =
          bind-some (get_server_ip argv)
            (λ server_ip. some (connect C (make_client C connection server_ip) ts))
            (if_false _ _ client e) in
        let (server, runs, matches) = serve-connect connection ip ts (some_inj there) in
        (server, rw (has_arg-append argv "-s") (ap some runs), matches)
  ]

  get_data_size-append :
      (argv : List String) {v : ℕ}
      → get_data_size C argv ≡ some v
      → get_data_size C (argv ++ "-s" ∷ []) ≡ some v
  unfolding get_data_size
  get_data_size-append argv e =
      option-append argv "-datasize" _ _ e (ground (arith, eq_iff "-s" "-datasize"))

  get_num_tuples-append :
      (argv : List String) {v : ℕ}
      → get_num_tuples C argv ≡ some v
      → get_num_tuples C (argv ++ "-s" ∷ []) ≡ some v
  unfolding get_num_tuples
  get_num_tuples-append argv e =
      option-append argv "-numtuples" _ _ e (ground (arith, eq_iff "-s" "-numtuples"))

  -- For arguments with which the program is a client: with `-s` behind them it is a server of the
  -- same kind of connection and the same port, and runs the same tests on as many bytes.
  pub main-append :
      (argv : List String) {c : Client} {ts : List Task}
      → main C argv ≡ connects c ts
      → (s : Server) × (main C (argv ++ "-s" ∷ []) ≡ serves s ts) × Matches c s
  unfolding main run_main
  main-append argv {c} {ts} e =
      let ran : run_main C argv ≡ some (connects c ts) = main_lem (run_main C argv) e in
      let (size, sized, e1) = bind-some (get_data_size C argv) _ ran in
      let (tuples, counted, e2) = bind-some (get_num_tuples C argv) _ e1 in
      let (metric, measured, e3) = bind-some (get_test_metric argv) _ e2 in
      let (connection, connected, e4) = bind-some (get_connection_type argv) _ e3 in
      let (server, runs, matches) = start-append argv connection (tasks metric size) e4 in
      (
        server,
        ap (λ r. elim r [ none ↦ throws | some p ↦ p ])
            (some-bind _ (get_data_size-append argv sized) (
              some-bind _ (get_num_tuples-append argv counted) (
                some-bind _ (get_test_metric-append argv measured)
                  (some-bind _ (get_connection_type-append argv connected) runs)))),
        matches,
      )
