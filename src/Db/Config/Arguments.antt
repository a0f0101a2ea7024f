-- ===== src/Db/Config/Arguments.antt =====
-- `with_cli_overrides` on the arguments that a list of settings is written as.
use quickstep.Base.{ℕ, zero, suc, ◌+◌, ◌/◌, ◌%◌, ◌≤◌, ◌<◌, ◌≡◌, inl, inr, refl, ap, sym, ◌∙◌, arith}
use quickstep.Base.{List, [], ◌∷◌, ◌++◌, append-nil, none, some, Bool-cases}
use quickstep.Base.{ltb, if◌then◌else◌, length, All}
use quickstep.Base.Words.{u64_max}
use quickstep.Base.Order.{compare_bytes-eq, compare_bytes_refl}
use quickstep.Db.Config.{QuickStepConfig, digits, parse_usize, strip_prefix, value_behind}
use quickstep.Db.Config.{parse_cli_override, override_one, override_loop, with_cli_overrides}
use quickstep.Db.Config.{cli_wal_leaf_threshold, cli_wal_global_record_threshold}
use quickstep.Db.Config.{cli_wal_global_byte_threshold}

-- A number in decimal. Each round takes one digit, so `n + 1` rounds are enough.
unfoldable pub decimal_loop : ℕ → ℕ → List ℕ → List ℕ
decimal_loop zero n acc = acc
decimal_loop (suc fuel) n acc =
    let rest = decimal_loop fuel (n / 10) ((b'0' + n % 10) ∷ acc) in
    if ltb n 10 then (b'0' + n) ∷ acc else rest

unfoldable pub decimal : ℕ → List ℕ
decimal n = decimal_loop (suc n) n []

parse_usize-decimal_loop :
    (fuel n : ℕ) (acc : List ℕ)
    → n < fuel
    → n ≤ u64_max
    → parse_usize (decimal_loop fuel n acc) ≡ digits n acc
unfolding decimal_loop parse_usize digits
parse_usize-decimal_loop zero n acc h fits = elim h [ ]
parse_usize-decimal_loop (suc fuel) n acc h fits = elim (Bool-cases (ltb n 10)) [
  | inl small ↦ rw (small, decimal_loop) (ground (arith, small))
  | inr large ↦
      rw (large, decimal_loop)
        (parse_usize-decimal_loop fuel (n / 10) ((b'0' + n % 10) ∷ acc) (ground (arith, large))
            (omega arith)
          ∙ ground arith)
]

pub parse_usize-decimal : (n : ℕ) → n ≤ u64_max → parse_usize (decimal n) ≡ some n
unfolding decimal digits
parse_usize-decimal n fits = parse_usize-decimal_loop (suc n) n [] (omega arith) fits

strip_prefix-append : (p t : List ℕ) → strip_prefix p (p ++ t) ≡ some t
unfolding strip_prefix
strip_prefix-append [] t = refl
strip_prefix-append (c ∷ p) t = ground (arith, strip_prefix-append p t)

strip_prefix_self : (p : List ℕ) → strip_prefix p p ≡ some []
strip_prefix_self p = ap (strip_prefix p) (sym (append-nil p)) ∙ strip_prefix-append p []

module _ (flag : List ℕ) (iter : List (List ℕ)) where
  parse_behind_equals :
      (value : List ℕ)
      → parse_cli_override (flag ++ (b'=' ∷ value)) flag iter ≡ (parse_usize value, iter)
  unfolding parse_cli_override value_behind strip_prefix
  parse_behind_equals value =
      rw (strip_prefix-append flag (b'=' ∷ value), value_behind, parse_cli_override) refl

  parse_next :
      (value : List ℕ) → parse_cli_override flag flag (value ∷ iter) ≡ (parse_usize value, iter)
  unfolding parse_cli_override value_behind strip_prefix
  parse_next value =
      rw (strip_prefix_self flag, value_behind, parse_cli_override)
        (rw (compare_bytes_refl flag) refl)

  parse_other :
      (token : List ℕ)
      → strip_prefix flag token ≡ none
      → parse_cli_override token flag iter ≡ (none, iter)
  unfolding parse_cli_override value_behind
  parse_other token h =
      ground (arith, h, strip_prefix_self flag, ap (strip_prefix flag), compare_bytes-eq token flag)

pub data Threshold : Type 0 where
  leaf_checkpoint global_record global_byte : Threshold

abbrev pub flag_of : Threshold → List ℕ
flag_of leaf_checkpoint = cli_wal_leaf_threshold
flag_of global_record = cli_wal_global_record_threshold
flag_of global_byte = cli_wal_global_byte_threshold

abbrev pub set_threshold : Threshold → ℕ → QuickStepConfig → QuickStepConfig
set_threshold leaf_checkpoint n c = record c { wal_leaf_checkpoint_threshold = n }
set_threshold global_record n c = record c { wal_global_record_threshold = n }
set_threshold global_byte n c = record c { wal_global_byte_threshold = n }

-- A setting as `flag=number`, as `flag` and `number`, or an argument of something else.
pub data Argument : Type 0 where
  joined separate : (t : Threshold) (n : ℕ) → Argument
  other : (token : List ℕ) → Argument

abbrev pub written : List Argument → List (List ℕ)
written [] = []
written (joined t n ∷ as') = (flag_of t ++ (b'=' ∷ decimal n)) ∷ written as'
written (separate t n ∷ as') = flag_of t ∷ decimal n ∷ written as'
written (other token ∷ as') = token ∷ written as'

-- What the settings say, one after the other.
abbrev pub settled : List Argument → QuickStepConfig → QuickStepConfig
settled [] c = c
settled (joined t n ∷ as') c = settled as' (set_threshold t n c)
settled (separate t n ∷ as') c = settled as' (set_threshold t n c)
settled (other token ∷ as') c = settled as' c

-- Numbers that fit a word, and arguments that start with none of the flags.
abbrev pub IsArgument : Argument → Type 0
IsArgument (joined t n) = n ≤ u64_max
IsArgument (separate t n) = n ≤ u64_max
IsArgument (other token) =
    (strip_prefix cli_wal_leaf_threshold token ≡ none)
    × (strip_prefix cli_wal_global_record_threshold token ≡ none)
    × (strip_prefix cli_wal_global_byte_threshold token ≡ none)

-- A flag is no prefix of another one, whatever stands behind it.
override_one-at :
    (t : Threshold) (rest : List ℕ) (iter iter' : List (List ℕ)) (n : ℕ) (c : QuickStepConfig)
    → parse_cli_override (flag_of t ++ rest) (flag_of t) iter ≡ (some n, iter')
    → override_one (flag_of t ++ rest) iter c ≡ (set_threshold t n c, iter')
unfolding override_one strip_prefix
override_one-at leaf_checkpoint rest iter iter' n c here = ground (arith, here)
override_one-at global_record rest iter iter' n c here =
    let token = cli_wal_global_record_threshold ++ rest in
    ground (arith, here, parse_other cli_wal_leaf_threshold iter token refl)
override_one-at global_byte rest iter iter' n c here =
    let token = cli_wal_global_byte_threshold ++ rest in
    ground (
      arith,
      here,
      parse_other cli_wal_leaf_threshold iter token refl,
      parse_other cli_wal_global_record_threshold iter token refl,
    )

override_one_bare :
    (t : Threshold) (iter iter' : List (List ℕ)) (n : ℕ) (c : QuickStepConfig)
    → parse_cli_override (flag_of t) (flag_of t) iter ≡ (some n, iter')
    → override_one (flag_of t) iter c ≡ (set_threshold t n c, iter')
override_one_bare leaf_checkpoint iter iter' n c here =
    override_one-at leaf_checkpoint [] iter iter' n c here
override_one_bare global_record iter iter' n c here =
    override_one-at global_record [] iter iter' n c here
override_one_bare global_byte iter iter' n c here =
    override_one-at global_byte [] iter iter' n c here

override_one-other :
    (token : List ℕ) (iter : List (List ℕ)) (c : QuickStepConfig)
    → IsArgument (other token)
    → override_one token iter c ≡ (c, iter)
unfolding override_one
override_one-other token iter c (h, k, l) = ground (
  arith,
  parse_other cli_wal_leaf_threshold iter token h,
  parse_other cli_wal_global_record_threshold iter token k,
  parse_other cli_wal_global_byte_threshold iter token l,
)

override_loop-written :
    (as' : List Argument) (fuel : ℕ) (c : QuickStepConfig)
    → All IsArgument as'
    → length (written as') ≤ fuel
    → override_loop fuel (written as') c ≡ settled as' c
unfolding override_loop
override_loop-written [] zero c h room = refl
override_loop-written [] (suc fuel) c h room = refl
override_loop-written (joined t n ∷ as') zero c h room = absurd (omega arith)
override_loop-written (separate t n ∷ as') zero c h room = absurd (omega arith)
override_loop-written (other token ∷ as') zero c h room = absurd (omega arith)
override_loop-written (joined t n ∷ as') (suc fuel) c (fits, h) room =
    let taken =
      parse_behind_equals (flag_of t) (written as') (decimal n)
      ∙ ap (λ v. (v, written as')) (parse_usize-decimal n fits) in
    rw (override_one-at t (b'=' ∷ decimal n) (written as') (written as') n c taken, override_loop)
      (override_loop-written as' fuel (set_threshold t n c) h (omega arith))
override_loop-written (separate t n ∷ as') (suc fuel) c (fits, h) room =
    let taken =
      parse_next (flag_of t) (written as') (decimal n)
      ∙ ap (λ v. (v, written as')) (parse_usize-decimal n fits) in
    rw (override_one_bare t (decimal n ∷ written as') (written as') n c taken, override_loop)
      (override_loop-written as' fuel (set_threshold t n c) h (omega arith))
override_loop-written (other token ∷ as') (suc fuel) c (free, h) room =
    rw (override_one-other token (written as') c free, override_loop)
      (override_loop-written as' fuel c h (omega arith))

-- On the arguments that a list of settings is written as, each as `flag=number` or as two arguments,
-- between arguments that start with none of the flags: each threshold gets the last number that is
-- set for it, where the numbers fit a word, and the rest of the configuration is as before.
pub with_cli_overrides-written :
    (as' : List Argument) (c : QuickStepConfig)
    → All IsArgument as'
    → with_cli_overrides (written as') c ≡ settled as' c
unfolding with_cli_overrides
with_cli_overrides-written as' c h =
    override_loop-written as' (length (written as')) c h (omega arith)
