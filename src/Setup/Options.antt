-- ===== src/Setup/Options.antt =====
-- The options of src/main.c. What `getopt` finds on the command line is a list: an option letter with
-- its argument, or `?` with the letter in `optopt` that is not known or lacks its argument.
pub mod Latest
use libevent_paxos.Base.{
  ℕ, ℤ, negsuc, eqb_ℤ, Bool, false, ◌||◌, Option, none, some, List, [], ◌∷◌, ◌==◌, if◌then◌else◌,
}

-- The number of an argument is what `atoi` makes of it.
pub data Opt : Type 0 where
  opt_n : ℤ → Opt
  opt_c : List ℕ → Opt
  opt_l : List ℕ → Opt
  opt_m : List ℕ → Opt
  opt_r : Opt
  opt_d : Opt
  opt_unknown : ℕ → Opt

pub record Options : Type 0 where
  pub start_mode : Option (List ℕ)
  pub config_path : Option (List ℕ)
  pub log_dir : Option (List ℕ)
  pub node_id : ℤ
  pub fake_mode : ℕ

abbrev pub no_options : Options
no_options = record {
  start_mode = none;
  config_path = none;
  log_dir = none;
  node_id = negsuc 0;
  fake_mode = 1;
}

-- 's' and 'r'
abbrev pub known_mode : List ℕ → Bool
known_mode [] = false
known_mode (c ∷ cs) = (c == 115) || (c == 114)

-- 'n', 'm' and 'c'
abbrev pub needs_argument : ℕ → Bool
needs_argument c = (c == 110) || ((c == 109) || (c == 99))

-- One turn; `none` is `exit(1)`. An option that lacks its argument ends the program at once, so that
-- `optopt` names none of these when `r` falls through to the test of it.
unfoldable pub take_option : Opt → Options → Option Options
take_option (opt_n id) o = some (record o { node_id = id })
take_option (opt_c path) o = some (record o { config_path = some path })
take_option (opt_l path) o = some (record o { log_dir = some path })
take_option (opt_m mode) o =
    if known_mode mode then some (record o { start_mode = some mode }) else none
take_option opt_r o = some (record o { fake_mode = 0 })
take_option opt_d o = none
take_option (opt_unknown optopt) o = if needs_argument optopt then none else some o

unfoldable pub take_options : List Opt → Options → Option Options
take_options [] o = some o
take_options (x ∷ xs) o = elim (take_option x o) [ none ↦ none | some o' ↦ take_options xs o' ]

-- The arguments with which `proxy_init` is called.
pub record InitArgs : Type 0 where
  pub node_id : ℤ
  pub start_mode : List ℕ
  pub config_path : List ℕ
  pub log_path : Option (List ℕ)
  pub fake_mode : ℕ

abbrev pub args_of : Options → Option InitArgs
args_of o = elim o.config_path [
  | none ↦ none
  | some path ↦ elim o.start_mode [
    | none ↦ none
    | some mode ↦
        if eqb_ℤ o.node_id (negsuc 0)
        then none
        else some record {
          node_id = o.node_id;
          start_mode = mode;
          config_path = path;
          log_path = o.log_dir;
          fake_mode = o.fake_mode;
        }
  ]
]

-- What `main` starts the proxy with; `none` is `exit(1)`.
unfoldable pub read_options : List Opt → Option InitArgs
read_options opts = elim (take_options opts no_options) [ none ↦ none | some o ↦ args_of o ]
