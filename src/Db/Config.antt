-- ===== src/Db/Config.antt =====
-- QuickStepConfig: the thresholds of the log, and what the environment and the arguments of the
-- command line override. A text is the list of its bytes.
pub mod Arguments
mod Examples
use quickstep.Base.{
  ℕ, zero, suc, ◌+◌, ◌-◌, ◌*◌, List, [], ◌∷◌, Bool, Option, none, some, true, false,
}
use quickstep.Base.{leb, ◌==◌, ◌&&◌, if◌then◌else◌, length}
use quickstep.Base.Words.{u64_max}
use quickstep.Base.Order.{compare_bytes}
use Prim.Native.Nat.{Ordering}
use Ordering.{eq}
use Prim.Native.Char.{code}
use Prim.Native.String.{String}

abbrev pub codes : String → List ℕ
codes String.[] = []
codes (String.◌∷◌ c s) = code c ∷ codes s

abbrev pub default_wal_leaf_checkpoint_threshold : ℕ
default_wal_leaf_checkpoint_threshold = 32

abbrev pub default_wal_global_record_threshold : ℕ
default_wal_global_record_threshold = 1024

abbrev pub default_wal_global_byte_threshold : ℕ
default_wal_global_byte_threshold = 512 * 1024

abbrev pub env_wal_leaf_threshold : List ℕ
env_wal_leaf_threshold = codes "QUICKSTEP_WAL_LEAF_THRESHOLD"

abbrev pub env_wal_global_record_threshold : List ℕ
env_wal_global_record_threshold = codes "QUICKSTEP_WAL_GLOBAL_RECORD_THRESHOLD"

abbrev pub env_wal_global_byte_threshold : List ℕ
env_wal_global_byte_threshold = codes "QUICKSTEP_WAL_GLOBAL_BYTE_THRESHOLD"

abbrev pub cli_wal_leaf_threshold : List ℕ
cli_wal_leaf_threshold = codes "--quickstep-wal-leaf-threshold"

abbrev pub cli_wal_global_record_threshold : List ℕ
cli_wal_global_record_threshold = codes "--quickstep-wal-global-record-threshold"

abbrev pub cli_wal_global_byte_threshold : List ℕ
cli_wal_global_byte_threshold = codes "--quickstep-wal-global-byte-threshold"

pub record QuickStepConfig : Type 0 where
  pub path : List ℕ
  pub inner_node_upper_bound : ℕ
  pub leaf_upper_bound : ℕ
  pub cache_size_lg : ℕ
  pub wal_leaf_checkpoint_threshold : ℕ
  pub wal_global_record_threshold : ℕ
  pub wal_global_byte_threshold : ℕ

unfoldable pub new : List ℕ → ℕ → ℕ → ℕ → QuickStepConfig
new path inner_node_upper_bound leaf_upper_bound cache_size_lg = record {
  path = path;
  inner_node_upper_bound = inner_node_upper_bound;
  leaf_upper_bound = leaf_upper_bound;
  cache_size_lg = cache_size_lg;
  wal_leaf_checkpoint_threshold = default_wal_leaf_checkpoint_threshold;
  wal_global_record_threshold = default_wal_global_record_threshold;
  wal_global_byte_threshold = default_wal_global_byte_threshold;
}

unfoldable pub with_wal_thresholds : ℕ → ℕ → ℕ → QuickStepConfig → QuickStepConfig
with_wal_thresholds leaf_checkpoint global_record global_bytes c = record c {
  wal_leaf_checkpoint_threshold = leaf_checkpoint;
  wal_global_record_threshold = global_record;
  wal_global_byte_threshold = global_bytes;
}

unfoldable pub wal_thresholds : QuickStepConfig → ℕ × ℕ × ℕ
wal_thresholds c =
    (c.wal_leaf_checkpoint_threshold, c.wal_global_record_threshold, c.wal_global_byte_threshold)

-- `parse::<usize>`: digits, perhaps behind a plus sign, of a number that fits the word.
unfoldable pub digits : ℕ → List ℕ → Option ℕ
digits acc [] = some acc
digits acc (c ∷ cs) =
    let next = acc * 10 + (c - b'0') in
    let rest = digits next cs in
    if leb b'0' c && (leb c b'9' && leb next u64_max) then rest else none

unfoldable pub parse_usize : List ℕ → Option ℕ
parse_usize [] = none
parse_usize (c ∷ cs) = elim (c == b'+') [
  | false ↦ digits 0 (c ∷ cs)
  | true ↦ elim cs [ [] ↦ none | ◌∷◌ d ds ↦ digits 0 (d ∷ ds) ]
]

-- The environment gives the value of a variable, if it is set.
unfoldable pub read_env_usize : (List ℕ → Option (List ℕ)) → List ℕ → Option ℕ
read_env_usize env key = elim (env key) [ none ↦ none | some value ↦ parse_usize value ]

abbrev pub or_keep : Option ℕ → ℕ → ℕ
or_keep none old = old
or_keep (some val) old = val

unfoldable pub with_env_overrides : (List ℕ → Option (List ℕ)) → QuickStepConfig → QuickStepConfig
with_env_overrides env c = record c {
  wal_leaf_checkpoint_threshold =
      or_keep (read_env_usize env env_wal_leaf_threshold) c.wal_leaf_checkpoint_threshold;
  wal_global_record_threshold =
      or_keep (read_env_usize env env_wal_global_record_threshold) c.wal_global_record_threshold;
  wal_global_byte_threshold =
      or_keep (read_env_usize env env_wal_global_byte_threshold) c.wal_global_byte_threshold;
}

unfoldable pub strip_prefix : List ℕ → List ℕ → Option (List ℕ)
strip_prefix [] token = some token
strip_prefix (c ∷ prefix) [] = none
strip_prefix (c ∷ prefix) (d ∷ token) = if c == d then strip_prefix prefix token else none

-- The value behind an equals sign that stands behind the flag.
unfoldable pub value_behind : List ℕ → List ℕ → Option (List ℕ)
value_behind token flag = elim (strip_prefix flag token) [
  | none ↦ none
  | some rest ↦ strip_prefix (b'=' ∷ []) rest
]

-- The value, and the arguments that are left.
unfoldable pub parse_cli_override : List ℕ → List ℕ → List (List ℕ) → Option ℕ × List (List ℕ)
parse_cli_override token flag iter = elim (value_behind token flag) [
  | some value ↦ (parse_usize value, iter)
  | none ↦ elim (compare_bytes token flag) [
    | eq ↦ elim iter [ [] ↦ (none, []) | ◌∷◌ value rest ↦ (parse_usize value, rest) ]
    | _ ↦ (none, iter)
  ]
]

-- The body of the loop over the arguments.
unfoldable pub override_one :
    List ℕ → List (List ℕ) → QuickStepConfig → QuickStepConfig × List (List ℕ)
override_one token iter c =
    let (leaf, iter₁) = parse_cli_override token cli_wal_leaf_threshold iter in
    elim leaf [
      | some value ↦ (record c { wal_leaf_checkpoint_threshold = value }, iter₁)
      | none ↦
          let (records, iter₂) = parse_cli_override token cli_wal_global_record_threshold iter₁ in
          elim records [
            | some value ↦ (record c { wal_global_record_threshold = value }, iter₂)
            | none ↦
                let (bytes, iter₃) = parse_cli_override token cli_wal_global_byte_threshold iter₂ in
                elim bytes [
                  | some value ↦ (record c { wal_global_byte_threshold = value }, iter₃)
                  | none ↦ (c, iter₃)
                ]
          ]
    ]

-- Each round takes one argument at least, so a round for each is enough.
unfoldable pub override_loop : ℕ → List (List ℕ) → QuickStepConfig → QuickStepConfig
override_loop zero iter c = c
override_loop (suc fuel) [] c = c
override_loop (suc fuel) (token ∷ iter) c =
    let r = override_one token iter c in override_loop fuel r.1 r.0

unfoldable pub with_cli_overrides : List (List ℕ) → QuickStepConfig → QuickStepConfig
with_cli_overrides args c = override_loop (length args) args c

-- What `QuickStep::new` makes of its configuration. The first argument is the program.
unfoldable pub resolve :
    (List ℕ → Option (List ℕ)) → List (List ℕ) → QuickStepConfig → QuickStepConfig
resolve env args c = with_cli_overrides args (with_env_overrides env c)
