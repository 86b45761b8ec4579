-- ===== src/Server/CommandLine/RoundTrip.antt =====
-- The command line of a set of settings gives them back.
use rust_tcp_server.Base.{
  ℕ, ◌≤◌, ◌≡◌, refl, ap, ◌∙◌, Bool, true, false, ltb, List, [], ◌∷◌, Option, none, some, arith,
  Bytes, codes,
}
use rust_tcp_server.Http.Response.Layout.{parse_usize-write_usize}
use rust_tcp_server.Http.Response.{write_usize}
use rust_tcp_server.Server.CommandLine.{Cli, default_cli, run_with, arg_of, parse_u16, parse_args}
use rust_tcp_server.Text.Ascii.{same}
use rust_tcp_server.Text.Number.{usize_max, parse_usize}

abbrev pub number : ℕ → Bytes
number n = write_usize [] n

abbrev pub count_args : Bytes → Option ℕ → List Bytes → List Bytes
count_args flag none rest = rest
count_args flag (some n) rest = flag ∷ number n ∷ rest

abbrev pub verbose_args : Bool → List Bytes
verbose_args false = []
verbose_args true = codes "--verbose" ∷ []

-- The arguments that ask for the settings.
abbrev pub args_of : Cli → List Bytes
args_of cli =
    codes "--model"
    ∷ cli.model
    ∷ codes "--assets-dir"
    ∷ cli.assets_dir
    ∷ codes "--port"
    ∷ number cli.port
    ∷ count_args (codes "--workers") cli.workers
        (count_args (codes "--max-connections") cli.max_connections (verbose_args cli.verbose))

abbrev pub Fits : Option ℕ → Type 0
Fits none = Unit {0}
Fits (some n) = n ≤ usize_max

parse_verbose :
    (cli : Cli) (v : Bool)
    → cli.verbose ≡ false
    → parse_args cli (verbose_args v) ≡ run_with (record cli { verbose = v })
unfolding parse_args arg_of same
parse_verbose cli false e = ap (λ b. run_with (record cli { verbose = b })) e
parse_verbose cli true e = refl

port_step :
    (cli : Cli) (raw : Bytes) (n : ℕ) (rest : List Bytes)
    → parse_u16 raw ≡ some n
    → parse_args cli (codes "--port" ∷ raw ∷ rest) ≡ parse_args (record cli { port = n }) rest
unfolding parse_args arg_of same
port_step cli raw n rest h = rw (parse_args, h)

workers_step :
    (cli : Cli) (raw : Bytes) (n : ℕ) (rest : List Bytes)
    → parse_usize raw ≡ some n
    → parse_args cli (codes "--workers" ∷ raw ∷ rest)
      ≡ parse_args (record cli { workers = some n }) rest
unfolding parse_args arg_of same
workers_step cli raw n rest h = rw (parse_args, h)

max_connections_step :
    (cli : Cli) (raw : Bytes) (n : ℕ) (rest : List Bytes)
    → parse_usize raw ≡ some n
    → parse_args cli (codes "--max-connections" ∷ raw ∷ rest)
      ≡ parse_args (record cli { max_connections = some n }) rest
unfolding parse_args arg_of same
max_connections_step cli raw n rest h = rw (parse_args, h)

text_steps :
    (cli : Cli) (model assets_dir : Bytes) (rest : List Bytes)
    → parse_args cli (codes "--model" ∷ model ∷ codes "--assets-dir" ∷ assets_dir ∷ rest)
      ≡ parse_args (record cli { model = model; assets_dir = assets_dir }) rest
unfolding parse_args arg_of same
text_steps cli model assets_dir rest = refl

parse_max_connections :
    (cli : Cli) (m : Option ℕ) (rest : List Bytes)
    → Fits m
    → cli.max_connections ≡ none
    → parse_args cli (count_args (codes "--max-connections") m rest)
      ≡ parse_args (record cli { max_connections = m }) rest
parse_max_connections cli none rest h e =
    ap (λ o. parse_args (record cli { max_connections = o }) rest) e
parse_max_connections cli (some n) rest h e =
    max_connections_step cli (number n) n rest (parse_usize-write_usize n h)

parse_workers :
    (cli : Cli) (w : Option ℕ) (rest : List Bytes)
    → Fits w
    → cli.workers ≡ none
    → parse_args cli (count_args (codes "--workers") w rest)
      ≡ parse_args (record cli { workers = w }) rest
parse_workers cli none rest h e = ap (λ o. parse_args (record cli { workers = o }) rest) e
parse_workers cli (some n) rest h e =
    workers_step cli (number n) n rest (parse_usize-write_usize n h)

parse_u16_small :
    (raw : Bytes) (n : ℕ) → parse_usize raw ≡ some n → n ≤ 65535 → parse_u16 raw ≡ some n
unfolding parse_u16
parse_u16_small raw n e h =
    let small : ltb 65535 n ≡ false = ground arith in rw (parse_u16, e, small)

-- Every choice of settings can be asked for, and is then what `parse_args` returns, if the numbers are
-- of their types' sizes.
pub parse_args-args_of :
    (cli : Cli)
    → cli.port ≤ 65535
    → Fits cli.workers
    → Fits cli.max_connections
    → parse_args default_cli (args_of cli) ≡ run_with cli
unfolding default_cli
parse_args-args_of cli p w m =
    let flags = verbose_args cli.verbose in
    let limited = count_args (codes "--max-connections") cli.max_connections flags in
    let counted = count_args (codes "--workers") cli.workers limited in
    let named : Cli = record default_cli { model = cli.model; assets_dir = cli.assets_dir } in
    let ported : Cli = record named { port = cli.port } in
    let staffed : Cli = record ported { workers = cli.workers } in
    text_steps default_cli cli.model cli.assets_dir (codes "--port" ∷ number cli.port ∷ counted)
    ∙ port_step named (number cli.port) cli.port counted (
        parse_u16_small (number cli.port) cli.port (parse_usize-write_usize cli.port (omega arith))
          p)
    ∙ parse_workers ported cli.workers limited w refl
    ∙ parse_max_connections staffed cli.max_connections flags m refl
    ∙ parse_verbose (record staffed { max_connections = cli.max_connections }) cli.verbose refl
