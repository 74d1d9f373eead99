-- ===== src/Drivers/Maldet/Scoped.antt =====
-- What a maldet scan asks maldet to look at.
use sentinel_host.Prelude.{◌≡◌, ◌⊎◌, Option, some, List, [], ◌∷◌, ◌++◌, Text, codes}
use sentinel_host.Schema.Enums.{full}
use sentinel_host.Schema.Types.{Time}
use sentinel_host.Adapter.Paths.{target_list}
use sentinel_host.Adapter.Safe.{ScanRequest}
use sentinel_host.Drivers.Command.{Command, ExecResult, Environment, Scanned}
use sentinel_host.Drivers.Maldet.Scan.{ScanProblem, Target, report_command, run_target}

module _ (env : Environment) (req : ScanRequest) where
  -- A scan in the root of the request, whose first arguments turn off maldet's quarantine, its cleaner and its
  -- suspension of users, and whose last ones are these.
  pub record Passive (flags : List Text) (c : Command) : Type 0 where
    pub settings :
        c.args
        ≡ codes "--config-option"
          ∷ codes "quarantine_hits=0,quarantine_clean=0,quarantine_suspend_user=0"
          ∷ (env.extra_args ++ flags)
    pub dir : c.dir ≡ req.root

  -- One report is printed, and nothing is scanned.
  pub record Dumps (id : Text) (c : Command) : Type 0 where
    pub only_dumps : c.args ≡ codes "--report" ∷ id ∷ codes "dump" ∷ []

  -- Such a command, and then nothing or the dump of one report.
  pub data Runs (flags : List Text) (cs : List Command) : Type 0 where
    alone : (c : Command) → Passive flags c → cs ≡ c ∷ [] → Runs flags cs
    and_dump :
        (c d : Command) (id : Text) → Passive flags c → Dumps id d → cs ≡ c ∷ d ∷ [] → Runs flags cs

  -- What may be asked: nothing; the files of the request, in the one list that is written; or the
  -- root, where the request names no file and is for a full scan.
  pub data Scoped (write : Text → Option Text) (s : Scanned ScanProblem) : Type 0 where
    nothing : s.ran ≡ [] → s.lists ≡ [] → Scoped write s
    the_files :
        (name : Text)
        → write (target_list req.paths) ≡ some name
        → s.lists ≡ target_list req.paths ∷ []
        → Runs (codes "-f" ∷ name ∷ []) s.ran
        → Scoped write s
    the_root :
        req.paths ≡ []
        → req.mode ≡ full
        → s.lists ≡ []
        → Runs (codes "-a" ∷ req.root ∷ []) s.ran
        → Scoped write s

module _ (env : Environment) (req : ScanRequest) (write : Text → Option Text)
    (started finished : Time) (first second : Command → ExecResult) where
  -- The commands, before it is said what they are.
  abbrev RanAs : Command → List Command → Type 0
  RanAs c cs = (cs ≡ c ∷ []) ⊎ ((id : Text) × (cs ≡ c ∷ report_command env req id ∷ []))

  abbrev Asks : Command → List Text → Scanned ScanProblem → Type 0
  Asks c ls s = RanAs c s.ran × (s.lists ≡ ls)

  abbrev ScopedAt : Target → Type 0
  ScopedAt t = Scoped env req write (run_target env req write started finished first second t)
