-- ===== src/Drivers/Maldet/Scanned.antt =====
-- What a successful maldet scan has read, and what it asked maldet to look at.
use sentinel_host.Prelude.{
  ℕ, true, false, ◌≡◌, refl, Option, none, some, List, [], ◌∷◌, ◌++◌, Text, codes, is_empty,
  if_cases,
}
use sentinel_host.Sched.Cron.{trim_space}
use sentinel_host.Schema.Enums.{failed}
use sentinel_host.Schema.Types.{Time}
use sentinel_host.Adapter.Safe.{ScanRequest}
use sentinel_host.Drivers.Command.{Command, ExecResult, exec_abstains, Environment, Scanned, Votes}
use sentinel_host.Drivers.Maldet.Printed.{Printed, scan_id_in-Printed}
use sentinel_host.Drivers.Maldet.Scan.{
  ScanProblem, access_gate_reason, scan_id_in, Target, no_target, list_unwritable, listed_in, whole,
  target, report_command, combined, scan_stopped, after_report, dump, with_scan_id, gated,
  after_first, run_target, scan, output,
}

module _ (env : Environment) (req : ScanRequest) (first second : Command → ExecResult) where
  -- The report that was read is one whose id the scan printed.
  pub record Fetched (s : Scanned ScanProblem) : Type 0 where
    pub asked : Command
    pub id : Text
    pub runs : s.ran ≡ asked ∷ report_command env req id ∷ []
    pub dump_args : (report_command env req id).args ≡ codes "--report" ∷ id ∷ codes "dump" ∷ []
    pub complete : exec_abstains (first asked) ≡ false
    pub allowed : access_gate_reason (combined (first asked)) ≡ none
    pub printed : Printed ((first asked).stdout ++ (first asked).stderr) id
    pub dumped : exec_abstains (second (report_command env req id)) ≡ false
    pub stdout : s.out.stdout ≡ (second (report_command env req id)).stdout
    pub is_written : is_empty (trim_space s.out.stdout) ≡ false

module _ (env : Environment) (req : ScanRequest) (write : Text → Option Text)
    (started finished : Time) (first second : Command → ExecResult) where
  abbrev FetchedIf : Scanned ScanProblem → Type 0
  FetchedIf s = Votes s → Fetched env req first second s

  abstains-scan_stopped :
      (r : ExecResult) (n : ℕ) (ref : Text) (o : Option ScanProblem) (cs : List Command)
      (ls : List Text)
      → exec_abstains r ≡ true
      → FetchedIf (scan_stopped req started finished r.status n ref o cs ls)
  unfolding scan_stopped output exec_abstains
  abstains-scan_stopped r n ref o cs ls e (a, b) = absurd (cc (rw b at e))

  failed-scan_stopped :
      (why : ScanProblem) (n : ℕ) (ref : Text) (cs : List Command) (ls : List Text)
      → FetchedIf (scan_stopped req started finished failed n ref (some why) cs ls)
  unfolding scan_stopped
  failed-scan_stopped why n ref cs ls (a, b) = absurd (cc a)

  dump-Fetched :
      (id : Text) (c : Command) (ls : List Text)
      → exec_abstains (first c) ≡ false
      → access_gate_reason (combined (first c)) ≡ none
      → scan_id_in (combined (first c)) ≡ some id
      → FetchedIf (dump env req write started finished first second id c ls (first c))
  unfolding dump after_report output report_command
  dump-Fetched id c ls x y z =
      let report = second (report_command env req id) in
      if_cases FetchedIf (exec_abstains report) _ _ (λ e. abstains-scan_stopped report _ _ _ _ _ e)
        (λ f.
          if_cases FetchedIf (is_empty (trim_space report.stdout)) _ _
            (λ e. failed-scan_stopped _ _ _ _ _)
            (λ g _. record {
              asked = c;
              id = id;
              runs = refl;
              dump_args = refl;
              complete = x;
              allowed = y;
              printed = scan_id_in-Printed (combined (first c)) id z;
              dumped = f;
              stdout = refl;
              is_written = g;
            }))

  with_scan_id-Fetched :
      (o : Option Text) (c : Command) (ls : List Text)
      → exec_abstains (first c) ≡ false
      → access_gate_reason (combined (first c)) ≡ none
      → scan_id_in (combined (first c)) ≡ o
      → FetchedIf (with_scan_id env req write started finished first second o c ls (first c))
  unfolding with_scan_id
  with_scan_id-Fetched none c ls x y z = failed-scan_stopped _ _ _ _ _
  with_scan_id-Fetched (some id) c ls x y z = dump-Fetched id c ls x y z

  gated-Fetched :
      (o : Option ScanProblem) (c : Command) (ls : List Text)
      → exec_abstains (first c) ≡ false
      → access_gate_reason (combined (first c)) ≡ o
      → FetchedIf (gated env req write started finished first second o c ls (first c))
  unfolding gated
  gated-Fetched (some why) c ls x y = failed-scan_stopped _ _ _ _ _
  gated-Fetched none c ls x y = with_scan_id-Fetched (scan_id_in (combined (first c))) c ls x y refl

  after_first-Fetched :
      (c : Command) (ls : List Text)
      → FetchedIf (after_first env req write started finished first second c ls (first c))
  unfolding after_first
  after_first-Fetched c ls =
      if_cases FetchedIf (exec_abstains (first c)) _ _
        (λ e. abstains-scan_stopped (first c) _ _ _ _ _ e)
        (λ f. gated-Fetched (access_gate_reason (combined (first c))) c ls f refl)

  run_target-Fetched :
      (t : Target) → FetchedIf (run_target env req write started finished first second t)
  unfolding run_target
  run_target-Fetched no_target = failed-scan_stopped _ _ _ _ _
  run_target-Fetched list_unwritable = failed-scan_stopped _ _ _ _ _
  run_target-Fetched (listed_in name content) = after_first-Fetched _ _
  run_target-Fetched (whole root) = after_first-Fetched _ _

  -- A scan that may count as a vote has run maldet twice: what it hands to `Parse` is the standard output of
  -- the second run as far as the runner captured it, which is not blank; that run is the dump of the report
  -- whose id stands in the output of the first run, as six digits, a dash, four digits, a dot and all the
  -- digits that follow; and both runs were complete by their status, and `accessGateReason` found no refusal in the
  -- first.
  pub scan-Fetched :
      Votes (scan env req write started finished first second)
      → Fetched env req first second (scan env req write started finished first second)
  unfolding scan
  scan-Fetched = run_target-Fetched (target req write)
