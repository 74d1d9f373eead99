-- ===== src/Drivers/Tests.antt =====
-- Runs of the drivers on small reports, and the theorems at these.
use Prim.Native.String.{String}
use sentinel_host.Prelude.{
  ◌≡◌, refl, true, false, Option, none, some, [], ◌∷◌, Text, codes, length, split,
}
use sentinel_host.Prelude.Int.{atoi}
use sentinel_host.Schema.Enums.{completed, incremental}
use sentinel_host.Adapter.Paths.{RawOutput, join_lines}
use sentinel_host.Adapter.Safe.{ScanRequest}
use sentinel_host.Drivers.Samples.{stat, output}
use sentinel_host.Drivers.Command.{Command, ExecResult, Environment, Votes}
use sentinel_host.Sched.Cron.{trim_space}
use sentinel_host.Drivers.Lines.{scan_fails}
use sentinel_host.Drivers.Maldet.Listed.{declared, cleaned_files, moved}
use sentinel_host.Drivers.Maldet.Complete.{Complete, parse-Complete, report_lines, report_hits}
use sentinel_host.Drivers.Maldet.Judged.{judged, parse-judged}
use sentinel_host.Drivers.Maldet.Scan.{scan}
use sentinel_host.Drivers.Maldet.Scanned.{Fetched, scan-Fetched}
use sentinel_host.Drivers.Maldet.Scoped.{Scoped}
use sentinel_host.Drivers.Maldet.Parse.{parse, truncated, looks_like_maldet_report}

abbrev maldet_report : String → RawOutput
maldet_report hits = output (
    codes "SCAN ID: 260723-0300.12345"
    ∷ codes hits
    ∷ codes "FILE HIT LIST:"
    ∷ codes "{HEX}php.cmdshell.v1 : /w/a.php"
    ∷ codes "{YARA}odd.rule : /w/gone.php"
    ∷ [])

two_hits : (parse stat (maldet_report "TOTAL HITS: 2") 9).problem ≡ none
unfolding parse join_lines split atoi
two_hits = refl

short_report : (parse stat (maldet_report "Total hits: 3") 9).problem ≡ some (truncated 3 2)
unfolding parse join_lines split atoi
short_report = refl

parse-Complete_example :
    Complete stat
      (maldet_report "TOTAL HITS: 2")
      9
      (parse stat (maldet_report "TOTAL HITS: 2") 9).report
parse-Complete_example = parse-Complete stat (maldet_report "TOTAL HITS: 2") 9 two_hits

shape : looks_like_maldet_report (trim_space (maldet_report "TOTAL HITS: 3").stdout) ≡ true
unfolding looks_like_maldet_report join_lines trim_space
shape = refl

fits : scan_fails (trim_space (maldet_report "TOTAL HITS: 3").stdout) ≡ false
unfolding scan_fails join_lines split trim_space
fits = refl

parse-judged_example :
    let raw = maldet_report "TOTAL HITS: 3" in
    (parse stat raw 9).problem
    ≡ judged
        (declared none (report_lines raw))
        (length (report_hits raw))
        (cleaned_files 0 (report_lines raw))
        (moved (report_hits raw))
parse-judged_example = parse-judged stat (maldet_report "TOTAL HITS: 3") 9 shape fits

env : Environment
env = record { binary_path = []; extra_args = [] }

abbrev request : ScanRequest
request = record {
  scan_id = codes "s1";
  root = codes "/w";
  paths = codes "/w/a.php" ∷ [];
  mode = incremental;
  max_file_size_bytes = 1000;
}

abbrev prints : String → Command → ExecResult
prints s c = record {
  stdout = codes s;
  stderr = [];
  exit_code = 0;
  status = completed;
  err = none;
  raw_ref = [];
  truncated = false;
}

abbrev list_file : Text → Option Text
list_file content = some (codes "/d/targets-1.txt")

abbrev first : Command → ExecResult
first = prints "scan completed, to view run: maldet --report 260723-0300.12345"

abbrev second : Command → ExecResult
second = prints "TOTAL HITS: 0"

scan_votes : Votes (scan env request list_file 1 2 first second)
unfolding scan
scan_votes = (refl, refl)

scan-Fetched_example :
    Fetched env request first second (scan env request list_file 1 2 first second)
scan-Fetched_example = scan-Fetched env request list_file 1 2 first second scan_votes
