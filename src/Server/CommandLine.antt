-- ===== src/Server/CommandLine.antt =====
-- server/src/main.rs, `parse_args` and the settings that `main` takes from it. What is printed is
-- left out, and `std::process::exit` is a result.
pub mod RoundTrip
use rust_tcp_server.Base.{
  ℕ, max, Bool, true, false, ltb, ◌||◌, List, [], ◌∷◌, Option, none, some, if◌then◌else◌, Bytes,
  codes,
}
use rust_tcp_server.Text.Ascii.{same}
use rust_tcp_server.Text.Number.{parse_usize}

pub record Cli : Type 0 where
  pub model : Bytes
  pub port : ℕ
  pub assets_dir : Bytes
  pub verbose : Bool
  pub workers : Option ℕ
  pub max_connections : Option ℕ

unfoldable pub default_cli : Cli
default_cli = record {
  model = codes "iterative";
  port = 8080;
  assets_dir = codes "server/assets";
  verbose = false;
  workers = none;
  max_connections = none;
}

pub data ParsedArgs : Type 0 where
  run_with : Cli → ParsedArgs
  exit_with : ℕ → ParsedArgs

-- The arms of the match on an argument.
pub data Arg : Type 0 where
  model_arg assets_dir_arg port_arg workers_arg max_connections_arg verbose_arg help_arg : Arg
  unknown_arg : Arg

unfoldable pub arg_of : Bytes → Arg
arg_of a =
    if same a (codes "--model")
    then model_arg
    else if same a (codes "--assets-dir")
    then assets_dir_arg
    else if same a (codes "--port")
    then port_arg
    else if same a (codes "--workers")
    then workers_arg
    else if same a (codes "--max-connections")
    then max_connections_arg
    else if same a (codes "--verbose")
    then verbose_arg
    else if same a (codes "-h") || same a (codes "--help")
    then help_arg
    else unknown_arg

-- `parse::<u16>()`.
unfoldable pub parse_u16 : Bytes → Option ℕ
parse_u16 s = elim (parse_usize s) [ none ↦ none | some n ↦ if ltb 65535 n then none else some n ]

-- An argument with none behind it, so that `expect_value` fails.
abbrev pub last_arg : Cli → Arg → ParsedArgs
last_arg cli verbose_arg = run_with (record cli { verbose = true })
last_arg cli help_arg = exit_with 0
last_arg cli _ = exit_with 2

unfoldable pub parse_args : Cli → List Bytes → ParsedArgs
parse_args cli [] = run_with cli
parse_args cli (a ∷ []) = last_arg cli (arg_of a)
parse_args cli (a ∷ raw ∷ rest) = elim (arg_of a) [
  | model_arg ↦ parse_args (record cli { model = raw }) rest
  | assets_dir_arg ↦ parse_args (record cli { assets_dir = raw }) rest
  | port_arg ↦ elim (parse_u16 raw) [
    | none ↦ exit_with 2
    | some p ↦ parse_args (record cli { port = p }) rest
  ]
  | workers_arg ↦ elim (parse_usize raw) [
    | none ↦ exit_with 2
    | some w ↦ parse_args (record cli { workers = some w }) rest
  ]
  | max_connections_arg ↦ elim (parse_usize raw) [
    | none ↦ exit_with 2
    | some m ↦ parse_args (record cli { max_connections = some m }) rest
  ]
  | verbose_arg ↦ parse_args (record cli { verbose = true }) (raw ∷ rest)
  | help_arg ↦ exit_with 0
  | unknown_arg ↦ exit_with 2
]
