-- ===== src/Drivers/Amwscan/Fresh.antt =====
-- Which report an AMWScan scan hands to `Parse`.
use sentinel_host.Prelude.{Bool, true, false, ◌≡◌, refl, Option, [], ◌∷◌, if_cases}
use sentinel_host.Schema.Types.{Time}
use sentinel_host.Adapter.Safe.{ScanRequest}
use sentinel_host.Drivers.Command.{Command, ExecResult, exec_abstains, Environment, Scanned, Votes}
use sentinel_host.Drivers.Amwscan.Scan.{
  ScanProblem, ReportFile, absent, unreadable, written, Answers, scan_command, output, scan_stopped,
  read_report, after_run, cleared, run_on, scan,
}

module _ (a : Answers) (env : Environment) (req : ScanRequest) (started finished : Time)
    (run : Command → ReportFile → ExecResult × ReportFile) where
  -- The scan read what the engine wrote in a complete run that started without a report.
  pub record Fresh (s : Scanned ScanProblem) : Type 0 where
    pub asked : Command
    pub runs : s.ran ≡ asked ∷ []
    pub complete : exec_abstains (run asked absent).0 ≡ false
    pub read : (run asked absent).1 ≡ written s.out.stdout

  abbrev FreshIf : Scanned ScanProblem → Type 0
  FreshIf s = Votes s → Fresh s

  read_report-Fresh :
      (c : Command) (file : ReportFile)
      → exec_abstains (run c absent).0 ≡ false
      → (run c absent).1 ≡ file
      → FreshIf (read_report a env req started finished run (run c absent).0 c file)
  unfolding read_report output
  read_report-Fresh c absent x e (n, v) = absurd (cc n)
  read_report-Fresh c unreadable x e (n, v) = absurd (cc n)
  read_report-Fresh c (written content) x e v = record {
    asked = c;
    runs = refl;
    complete = x;
    read = e;
  }

  abstains-Fresh :
      (c : Command) (r : ExecResult) (why : Option ScanProblem)
      → exec_abstains r ≡ true
      → FreshIf (
          scan_stopped a env req started finished run
            (output a env req started finished run r.status finished r.raw_ref [])
            why
            (c ∷ []))
  unfolding output exec_abstains
  abstains-Fresh c r why e (n, v) = absurd (cc (rw v at e))

  run-Fresh :
      (c : Command)
      → FreshIf (after_run a env req started finished run c (run c absent).0 (run c absent).1)
  unfolding after_run
  run-Fresh c =
      if_cases FreshIf (exec_abstains (run c absent).0) _ _
        (λ e. abstains-Fresh c (run c absent).0 _ e)
        (λ f. read_report-Fresh c (run c absent).1 f refl)

  cleared-Fresh :
      (removable : Bool) (before : ReportFile)
      → FreshIf (
          run_on a env req started finished run
            (scan_command a env req)
            (cleared a env req started finished run removable before))
  unfolding output
  cleared-Fresh removable absent v = run-Fresh (scan_command a env req) v
  cleared-Fresh true unreadable v = run-Fresh (scan_command a env req) v
  cleared-Fresh true (written t) v = run-Fresh (scan_command a env req) v
  cleared-Fresh false unreadable (n, v) = absurd (cc n)
  cleared-Fresh false (written t) (n, v) = absurd (cc n)

  -- What a scan that may count as a vote hands to `Parse` is what the engine wrote in this run, where the
  -- run was complete and started with no report in place: the report of the cycle before is never read
  -- again, whatever it was.
  pub scan-Fresh :
      (before : ReportFile)
      → Votes (scan a env req started finished run before)
      → Fresh (scan a env req started finished run before)
  unfolding scan
  scan-Fresh before =
      if_cases FreshIf a.installed _ _ (λ _. cleared-Fresh a.removable before)
        (λ _ (n, v). absurd (cc n))
