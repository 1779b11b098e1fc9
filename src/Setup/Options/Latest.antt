-- ===== src/Setup/Options/Latest.antt =====
-- What the options of src/main.c amount to: of each kind, the one that comes last.
use libevent_paxos.Base.{
  ℕ, ℤ, negsuc, eqb_ℤ, ◌≡◌, refl, ap, ◌∙◌, Bool, true, false, ◌&&◌, not, Option, none, some, List,
  [], ◌∷◌, if◌then◌else◌,
}
use libevent_paxos.Setup.Settings.{or_else}
use libevent_paxos.Setup.Options.{
  Opt, opt_n, opt_c, opt_l, opt_m, opt_r, opt_d, opt_unknown, Options, no_options, known_mode,
  needs_argument, take_option, take_options, InitArgs, args_of, read_options,
}

abbrev newer {ℓ} : {A : Type ℓ} → Option A → Option A → Option A
newer old none = old
newer old (some a) = some a

newer_assoc {ℓ} : {A : Type ℓ} (a b c : Option A) → newer (newer a b) c ≡ newer a (newer b c)
newer_assoc a b none = refl
newer_assoc a b (some c) = refl

or_else-newer {ℓ} :
    {A : Type ℓ} (a : A) (b c : Option A) → or_else (or_else a b) c ≡ or_else a (newer b c)
or_else-newer a b none = refl
or_else-newer a b (some c) = refl

-- What the last option of a kind gives.
abbrev pub latest {ℓ} : {A : Type ℓ} → (Opt → Option A) → List Opt → Option A
latest f [] = none
latest f (x ∷ xs) = newer (f x) (latest f xs)

abbrev path_of : Opt → Option (List ℕ)
path_of (opt_c path) = some path
path_of x = none

abbrev mode_of : Opt → Option (List ℕ)
mode_of (opt_m mode) = some mode
mode_of x = none

abbrev log_of : Opt → Option (List ℕ)
log_of (opt_l path) = some path
log_of x = none

abbrev id_of : Opt → Option ℤ
id_of (opt_n id) = some id
id_of x = none

abbrev fake_of : Opt → Option ℕ
fake_of opt_r = some 0
fake_of x = none

-- An option with which the program goes on.
abbrev fine : Opt → Bool
fine (opt_m mode) = known_mode mode
fine opt_d = false
fine (opt_unknown optopt) = not (needs_argument optopt)
fine x = true

abbrev pub all_fine : List Opt → Bool
all_fine [] = true
all_fine (x ∷ xs) = fine x && all_fine xs

-- All that is needed is given, and the number of the node is not the -1 that marks its absence.
abbrev complete :
    Option (List ℕ) → Option (List ℕ) → Option ℤ → Option (List ℕ) → ℕ → Option InitArgs
complete (some path) (some mode) (some id) log fake =
    if eqb_ℤ id (negsuc 0)
    then none
    else some record {
      node_id = id;
      start_mode = mode;
      config_path = path;
      log_path = log;
      fake_mode = fake;
    }
complete (some path) (some mode) none log fake = none
complete (some path) none id log fake = none
complete none mode id log fake = none

-- A description of the arguments that does not go through the options one by one.
abbrev pub latest_args : List Opt → Option InitArgs
latest_args opts =
    if all_fine opts
    then complete (latest path_of opts) (latest mode_of opts) (latest id_of opts)
        (latest log_of opts) (or_else 1 (latest fake_of opts))
    else none

-- The options `o` with what others give in place of theirs.
abbrev overlay :
    Option (List ℕ) → Option (List ℕ) → Option (List ℕ) → Option ℤ → Option ℕ → Options → Options
overlay mode path log id fake o = record {
  start_mode = newer o.start_mode mode;
  config_path = newer o.config_path path;
  log_dir = newer o.log_dir log;
  node_id = or_else o.node_id id;
  fake_mode = or_else o.fake_mode fake;
}

abbrev one_more : Opt → Options → Options
one_more x = overlay (mode_of x) (path_of x) (log_of x) (id_of x) (fake_of x)

abbrev all_of : List Opt → Options → Options
all_of xs =
    overlay (latest mode_of xs) (latest path_of xs) (latest log_of xs) (latest id_of xs)
      (latest fake_of xs)

if-not {ℓ} : {A : Type ℓ} (x y : A) (b : Bool) → (if b then x else y) ≡ (if not b then y else x)
if-not x y true = refl
if-not x y false = refl

take_option-fine :
    (x : Opt) (o : Options) → take_option x o ≡ (if fine x then some (one_more x o) else none)
unfolding take_option
take_option-fine (opt_n id) o = refl
take_option-fine (opt_c path) o = refl
take_option-fine (opt_l path) o = refl
take_option-fine (opt_m mode) o = refl
take_option-fine opt_r o = refl
take_option-fine opt_d o = refl
take_option-fine (opt_unknown optopt) o = if-not none (some o) (needs_argument optopt)

all_of-cons : (x : Opt) (xs : List Opt) (o : Options) → all_of xs (one_more x o) ≡ all_of (x ∷ xs) o
all_of-cons x xs o i = record {
  start_mode = newer_assoc o.start_mode (mode_of x) (latest mode_of xs) i;
  config_path = newer_assoc o.config_path (path_of x) (latest path_of xs) i;
  log_dir = newer_assoc o.log_dir (log_of x) (latest log_of xs) i;
  node_id = or_else-newer o.node_id (id_of x) (latest id_of xs) i;
  fake_mode = or_else-newer o.fake_mode (fake_of x) (latest fake_of xs) i;
}

if-then {ℓ} :
    {A : Type ℓ} (b r : Bool) (a : A) (y : A) (f : A → Option A)
    → f a ≡ (if r then some y else none)
    → elim (if b then some a else none) [ none ↦ none | some v ↦ f v ]
      ≡ (if b && r then some y else none)
if-then true r a y f same = same
if-then false r a y f same = refl

take_options-all_of :
    (xs : List Opt) (o : Options)
    → take_options xs o ≡ (if all_fine xs then some (all_of xs o) else none)
unfolding take_options
take_options-all_of [] o = refl
take_options-all_of (x ∷ xs) o =
    ap (λ t. elim t [ none ↦ none | some o' ↦ take_options xs o' ]) (take_option-fine x o)
    ∙ if-then (fine x) (all_fine xs) (one_more x o) (all_of (x ∷ xs) o) (take_options xs) (
        take_options-all_of xs (one_more x o)
        ∙ ap (λ t. if all_fine xs then some t else none) (all_of-cons x xs o))

-- What is complete of the options that all of them leave behind.
args_of-complete :
    (path mode : Option (List ℕ)) (id : Option ℤ) (log : Option (List ℕ)) (fake : Option ℕ)
    → args_of (overlay mode path log id fake no_options)
      ≡ complete path mode id log (or_else 1 fake)
args_of-complete (some path) (some mode) (some id) none fake = refl
args_of-complete (some path) (some mode) (some id) (some log) fake = refl
args_of-complete (some path) (some mode) none log fake = refl
args_of-complete (some path) none id log fake = refl
args_of-complete none mode id log fake = refl

args_of-if :
    (b : Bool) (o : Options)
    → elim (if b then some o else none) [ none ↦ none | some o' ↦ args_of o' ]
      ≡ (if b then args_of o else none)
args_of-if true o = refl
args_of-if false o = refl

-- The program starts its proxy if and only if every option is one it goes on with (a start mode that
-- begins with `s` or `r`, no `-d`, no argument missing for `-n`, `-m` or `-c`) and a path, a mode and
-- a node number other than -1 are given. It then starts with the last of each that is given, with the
-- last log path if there is one, and in fake mode unless `-r` is given. This is what the code does;
-- its `usage` says otherwise of two options: that `-d` asks for debug messages, and `-f` for fake mode.
pub read_options-latest_args : (opts : List Opt) → read_options opts ≡ latest_args opts
unfolding read_options
read_options-latest_args opts =
    ap (λ t. elim t [ none ↦ none | some o ↦ args_of o ]) (take_options-all_of opts no_options)
    ∙ (args_of-if (all_fine opts) (all_of opts no_options)
        ∙ ap (λ t. if all_fine opts then t else none)
            (args_of-complete (latest path_of opts) (latest mode_of opts) (latest id_of opts)
              (latest log_of opts) (latest fake_of opts)))
