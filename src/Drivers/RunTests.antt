-- ===== src/Drivers/RunTests.antt =====
-- Runs of the drivers of yara and AMWScan on small outputs, and the theorems at these.
use sentinel_host.Prelude.{
  false, ◌≡◌, refl, true, none, List, [], ◌∷◌, Text, codes, length, All, split,
}
use sentinel_host.Prelude.Int.{atoi}
use sentinel_host.Schema.Enums.{completed, full}
use sentinel_host.Adapter.Paths.{RawOutput, join_lines}
use sentinel_host.Adapter.Safe.{ScanRequest}
use sentinel_host.Sched.Cron.{cut}
use sentinel_host.Drivers.Samples.{stat, output}
use sentinel_host.Drivers.Command.{Command, ExecResult, Environment, Votes}
use sentinel_host.Drivers.Pmf.Parse as Yara
use sentinel_host.Drivers.Amwscan.Parse as Amwscan
use sentinel_host.Drivers.Amwscan.Matched as Entries
use sentinel_host.Drivers.Amwscan.Scope.{InScope, parse-InScope}
use sentinel_host.Drivers.Amwscan.Scan.{ReportFile, written, Answers, scan}
use sentinel_host.Drivers.Amwscan.Fresh.{Fresh, scan-Fresh}

abbrev yara_output : RawOutput
yara_output = output (
    codes "ObfuscatedPhp /w/a.php"
    ∷ codes "0x1f2:$eval: eval(base64"
    ∷ codes "Odd /w/gone.php"
    ∷ [])

-- One of the two files is gone.
one_finding : length (Yara.parse stat yara_output 9).report.findings ≡ 1
unfolding Yara.parse join_lines split cut
one_finding = refl

abbrev amwscan_report : RawOutput
amwscan_report = output (
    codes "Scan date: 2026-07-29 15:59:45"
    ∷ codes "File: /w/a.php"
    ∷ codes "Exploits:"
    ∷ codes " => [!] Function (eval) [line 4]"
    ∷ codes "      => eval($x)"
    ∷ codes "File: /w/b.php"
    ∷ codes " => [!] Signature (d30fc49e)"
    ∷ [])

abbrev asked : List Text
asked = codes "/w/a.php" ∷ []

accepted : (Amwscan.parse stat asked amwscan_report 9).problem ≡ none
unfolding Amwscan.parse join_lines split cut atoi
accepted = refl

parse-InScope_example :
    All (InScope stat asked) (Amwscan.parse stat asked amwscan_report 9).report.findings
parse-InScope_example = parse-InScope stat asked amwscan_report 9 accepted

abbrev answers : Answers
answers = record {
  installed = true;
  removable = true;
  archivable = true;
  phar = codes "/d/scanner.phar";
  report_base = codes "/d/report";
  beside = λ ref. codes "/d/amwscan.report.log";
  number = λ n. codes "1000";
}

abbrev env : Environment
env = record { binary_path = []; extra_args = [] }

abbrev request : ScanRequest
request = record {
  scan_id = codes "s1";
  root = codes "/w";
  paths = [];
  mode = full;
  max_file_size_bytes = 1000;
}

-- The engine writes a report.
abbrev engine_run : Command → ReportFile → ExecResult × ReportFile
engine_run c file = (
  record {
    stdout = [];
    stderr = [];
    exit_code = 0;
    status = completed;
    err = none;
    raw_ref = [];
    truncated = false;
  },
  written (codes "Scan date: today"),
)

votes : Votes (scan answers env request 1 2 engine_run (written (codes "File: /w/old.php")))
unfolding scan
votes = (refl, refl)

scan-Fresh_example :
    Fresh answers env request 1 2 engine_run
      (scan answers env request 1 2 engine_run (written (codes "File: /w/old.php")))
scan-Fresh_example =
    scan-Fresh answers env request 1 2 engine_run (written (codes "File: /w/old.php")) votes
