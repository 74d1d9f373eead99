-- ===== src/Drivers/Maldet/Listed.antt =====
-- What a maldet report lists, told without the loop's state, and that the loop reads it so.
use sentinel_host.Prelude.{
  ℕ, ◌+◌, Bool, true, false, ◌≡◌, refl, sym, ◌∙◌, Option, none, some, List, [], ◌∷◌, ◌++◌, Text,
  length, arith,
}
use mathlib.Core.List.{append-nil, append_assoc}
use sentinel_host.Sched.Cron.{trim_space}
use sentinel_host.Schema.Types.{ScanReport, Finding, Time}
use sentinel_host.Adapter.Paths.{RawOutput}
use sentinel_host.Drivers.Hits.{FileStat, hashed, skip, with_finding}
use sentinel_host.Drivers.Maldet.Report.{
  Line, blank, junk, list_start, list_end, hits_total, files_total, cleaned_total, listed, Hit,
  read_line, original, arrow, one_if_some, or_kept, hit_finding, add_hit, count_hit, Walk,
  ReportTotals, step, walk,
}
use sentinel_host.Drivers.Accounts.{accounted, skip-accounted, finding-accounted}

abbrev pub lines_of : List Text → List Line
lines_of [] = []
lines_of (l ∷ ls) = read_line (trim_space l) ∷ lines_of ls

-- The hits between the list's header and its end; the flag is whether the lines start inside the list.
abbrev pub listed_hits : Bool → List Line → List Hit
listed_hits b [] = []
listed_hits b (list_start ∷ ls) = listed_hits true ls
listed_hits b (list_end ∷ ls) = listed_hits false ls
listed_hits true (listed h ∷ ls) = h ∷ listed_hits true ls
listed_hits false (listed h ∷ ls) = listed_hits false ls
listed_hits b (blank ∷ ls) = listed_hits b ls
listed_hits b (junk ∷ ls) = listed_hits b ls
listed_hits b (hits_total n ∷ ls) = listed_hits b ls
listed_hits b (files_total n ∷ ls) = listed_hits b ls
listed_hits b (cleaned_total n ∷ ls) = listed_hits b ls

-- The last number of hits, and of cleaned files, that the report declares.
abbrev pub declared : Option ℕ → List Line → Option ℕ
declared o [] = o
declared o (hits_total n ∷ ls) = declared (or_kept n o) ls
declared o (l ∷ ls) = declared o ls

abbrev or_old : Option ℕ → ℕ → ℕ
or_old none k = k
or_old (some n) k = n

abbrev pub cleaned_files : ℕ → List Line → ℕ
cleaned_files k [] = k
cleaned_files k (cleaned_total n ∷ ls) = cleaned_files (or_old n k) ls
cleaned_files k (l ∷ ls) = cleaned_files k ls

-- The hits that maldet says it moved.
abbrev pub moved : List Hit → ℕ
moved [] = 0
moved (h ∷ hs) = one_if_some (arrow h.path) + moved hs

module _ (stat : Text → Option FileStat) (raw : RawOutput) (now : Time) where
  abbrev pub stat_of : Hit → Option FileStat
  stat_of h = hashed (stat (original (arrow h.path) h.path))

  abbrev pub cons_finding : Hit → Option FileStat → List Finding → List Finding
  cons_finding h none fs = fs
  cons_finding h (some st) fs = hit_finding stat raw now h st ∷ fs

  -- One finding for each hit whose file can still be read and hashed, in the order of the list.
  abbrev pub found_in : List Hit → List Finding
  found_in [] = []
  found_in (h ∷ hs) = cons_finding h (stat_of h) (found_in hs)

  -- What a walk leaves, against what it started with and what the lines list.
  pub record Read (w v : Walk stat raw now) (ls : List Line) : Type 0 where
    pub found : v.report.findings ≡ w.report.findings ++ found_in (listed_hits w.in_hit_list ls)
    pub counted : accounted v.report ≡ accounted w.report + length (listed_hits w.in_hit_list ls)
    pub declares : v.totals.declared_hits ≡ declared w.totals.declared_hits ls
    pub cleans : v.totals.cleaned ≡ cleaned_files w.totals.cleaned ls
    pub moves :
        v.totals.maldet_quarantined
        ≡ w.totals.maldet_quarantined + moved (listed_hits w.in_hit_list ls)

  add_hit-accounted :
      (h : Hit) (o : Option FileStat) (r : ScanReport)
      → accounted (add_hit stat raw now h o r) ≡ accounted r + 1
  unfolding add_hit
  add_hit-accounted h none r = skip-accounted r
  add_hit-accounted h (some st) r = finding-accounted (hit_finding stat raw now h st) r

  add_hit-findings :
      (h : Hit) (o : Option FileStat) (r : ScanReport) (fs : List Finding)
      → (add_hit stat raw now h o r).findings ++ fs ≡ r.findings ++ cons_finding h o fs
  unfolding add_hit skip with_finding
  add_hit-findings h none r fs = refl
  add_hit-findings h (some st) r fs =
      append_assoc r.findings (hit_finding stat raw now h st ∷ []) fs

  abbrev at_state : Bool → ReportTotals → ScanReport → Walk stat raw now
  at_state b t r = record { in_hit_list = b; totals = t; report = r }

  listed-Read :
      (h : Hit) (b : Bool) (t : ReportTotals) (rep : ScanReport) (v : Walk stat raw now)
      (ls : List Line)
      → Read (step stat raw now (at_state b t rep) (listed h)) v ls
      → Read (at_state b t rep) v (listed h ∷ ls)
  unfolding step count_hit
  listed-Read h true t rep v ls r = record {
    found = r.found ∙ add_hit-findings h (stat_of h) rep (found_in (listed_hits true ls));
    counted = omega (arith, r.counted, add_hit-accounted h (stat_of h) rep);
    declares = r.declares;
    cleans = r.cleans;
    moves = omega (arith, r.moves);
  }
  listed-Read h false t rep v ls r = record {
    found = r.found;
    counted = r.counted;
    declares = r.declares;
    cleans = r.cleans;
    moves = r.moves;
  }

  step-Read :
      (l : Line) (w v : Walk stat raw now) (ls : List Line)
      → Read (step stat raw now w l) v ls
      → Read w v (l ∷ ls)
  unfolding step
  step-Read blank w v ls r = record {
    found = r.found;
    counted = r.counted;
    declares = r.declares;
    cleans = r.cleans;
    moves = r.moves;
  }
  step-Read junk w v ls r = record {
    found = r.found;
    counted = r.counted;
    declares = r.declares;
    cleans = r.cleans;
    moves = r.moves;
  }
  step-Read list_start w v ls r = record {
    found = r.found;
    counted = r.counted;
    declares = r.declares;
    cleans = r.cleans;
    moves = r.moves;
  }
  step-Read list_end w v ls r = record {
    found = r.found;
    counted = r.counted;
    declares = r.declares;
    cleans = r.cleans;
    moves = r.moves;
  }
  step-Read (hits_total n) w v ls r = record {
    found = r.found;
    counted = r.counted;
    declares = r.declares;
    cleans = r.cleans;
    moves = r.moves;
  }
  step-Read (files_total n) w v ls r = record {
    found = r.found;
    counted = r.counted;
    declares = r.declares;
    cleans = r.cleans;
    moves = r.moves;
  }
  step-Read (cleaned_total none) w v ls r = record {
    found = r.found;
    counted = r.counted;
    declares = r.declares;
    cleans = r.cleans;
    moves = r.moves;
  }
  step-Read (cleaned_total (some k)) w v ls r = record {
    found = r.found;
    counted = r.counted;
    declares = r.declares;
    cleans = r.cleans;
    moves = r.moves;
  }
  step-Read (listed h) w v ls r = listed-Read h w.in_hit_list w.totals w.report v ls r

  pub walk-Read :
      (ls : List Text) (w : Walk stat raw now) → Read w (walk stat raw now w ls) (lines_of ls)
  unfolding walk
  walk-Read [] w = record {
    found = sym (append-nil w.report.findings);
    counted = omega arith;
    declares = refl;
    cleans = refl;
    moves = omega arith;
  }
  walk-Read (l ∷ ls) w =
      step-Read (read_line (trim_space l)) w _ (lines_of ls)
        (walk-Read ls (step stat raw now w (read_line (trim_space l))))
