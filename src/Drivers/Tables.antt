-- ===== src/Drivers/Tables.antt =====
-- The rule tables of the drivers of AMWScan and php-malware-finder: maps from a rule's name to what a
-- finding of the rule is.
use Prim.Native.String.{String}
use sentinel_host.Prelude.{Option, none, some, List, [], ◌∷◌, Text, codes, text_eq, if◌then◌else◌}
use sentinel_host.Schema.Enums.{Category, other, Severity, medium, Confidence, heuristic}
use sentinel_host.Drivers.Hits.{Mapping}

abbrev pub RuleTable : Type 0
RuleTable = List (Text × Mapping)

abbrev pub entry : String → Category → Severity → Confidence → Text × Mapping
entry name c s f = (codes name, record { category = c; severity = s; confidence = f })

unfoldable pub look_up : Text → RuleTable → Option Mapping
look_up name [] = none
look_up name ((n, m) ∷ t) = let rest = look_up name t in if text_eq name n then some m else rest

-- What stands for a rule that no table knows.
abbrev pub unknown_rule : Mapping
unknown_rule = record { category = other; severity = medium; confidence = heuristic }

unfoldable pub mapping_or : Option Mapping → Mapping
mapping_or none = unknown_rule
mapping_or (some m) = m
