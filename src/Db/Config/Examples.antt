-- ===== src/Db/Config/Examples.antt =====
-- Arguments of the command line, and a loop that is given one of each kind.
use quickstep.Base.{◌≡◌, refl, arith, List, [], ◌∷◌}
use quickstep.Db.Config.{new, codes, strip_prefix, with_cli_overrides}
use quickstep.Db.Config.Arguments.{Argument, joined, separate, other, written, settled}
use quickstep.Db.Config.Arguments.{leaf_checkpoint, global_byte, with_cli_overrides-written}

abbrev arguments : List Argument
arguments =
    other (codes "--verbose")
    ∷ joined leaf_checkpoint 5
    ∷ separate global_byte 4096
    ∷ joined leaf_checkpoint 7
    ∷ []

with_cli_overrides-written_example :
    with_cli_overrides (written arguments) (new [] 32 256 14) ≡ settled arguments (new [] 32 256 14)
unfolding strip_prefix
with_cli_overrides-written_example =
    with_cli_overrides-written arguments (new [] 32 256 14)
      ((refl, refl, refl), (omega arith, (omega arith, (omega arith, tt))))
