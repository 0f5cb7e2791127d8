-- ===== src/DocsTranslation/Workers.antt =====
-- The workers of `main` in scripts/translate-docs.js: some take files from one queue, each waits for its
-- `translateFile`, and the report of a file is added to a summary. Between a start and a report any
-- other worker may act. An error of a file ends the run, so the steps are those of a run without one.
use nginx_web_ui.Prelude.{ℕ, ◌+◌, ◌≡◌, List, [], ◌∷◌, ◌++◌, ltb, if◌then◌else◌}
use nginx_web_ui.FileSafety.Disk.{FilePath}
use nginx_web_ui.DocsTranslation.Safety.{SanityProblem}
use nginx_web_ui.DocsTranslation.TranslateFile.{
  Outcome, manual_edit, skipped, rolled_back, finished,
}

pub record Summary : Type 0 where
  pub done : ℕ
  pub lines : ℕ
  pub rolled : List (FilePath × List SanityProblem)
  pub restore_failed : ℕ
  pub candidates : ℕ
  pub manual : ℕ
  pub unsafe : ℕ

abbrev pub no_summary : Summary
no_summary = record {
  done = 0;
  lines = 0;
  rolled = [];
  restore_failed = 0;
  candidates = 0;
  manual = 0;
  unsafe = 0;
}

-- The fields of what `translateFile` returns that a branch leaves out count as 0.
abbrev count_lines : Outcome → Summary → Summary
count_lines manual_edit s = s
count_lines (skipped targets) s = record s { candidates = s.candidates + targets }
count_lines (rolled_back candidates problems) s = record s {
  candidates = s.candidates + candidates;
}
count_lines (finished t candidates) s = record s {
  lines = s.lines + t.applied;
  candidates = s.candidates + candidates;
  restore_failed = s.restore_failed + t.restore_failed;
  unsafe = s.unsafe + t.unsafe;
}

abbrev count_files : FilePath → Outcome → Summary → Summary
count_files file manual_edit s = record s { manual = s.manual + 1 }
count_files file (skipped targets) s = s
count_files file (rolled_back candidates problems) s = record s {
  rolled = s.rolled ++ (file, problems) ∷ [];
}
count_files file (finished t candidates) s = s

unfoldable pub add_report : FilePath → Outcome → Summary → Summary
add_report file r s = count_files file r (count_lines r (record s { done = s.done + 1 }))

-- The queue, the files whose translation is awaited, the workers that look for a file, and the
-- files that were reported, the last first.
pub record Workers : Type 0 where
  pub queue : List FilePath
  pub busy : List FilePath
  pub idle : ℕ
  pub seen : List FilePath
  pub summary : Summary

-- `Math.max(1, opt.concurrency)`, for a concurrency that is a number: with NaN no worker starts.
unfoldable pub worker_count : ℕ → ℕ
worker_count concurrency = if ltb concurrency 1 then 1 else concurrency

unfoldable pub started : List FilePath → ℕ → Workers
unfolding worker_count
started files concurrency = record {
  queue = files;
  busy = [];
  idle = worker_count concurrency;
  seen = [];
  summary = no_summary;
}

-- `queue.shift()` and the call.
unfoldable pub take_file : FilePath → List FilePath → ℕ → Workers → Workers
take_file file queue idle w = record w { queue = queue; busy = file ∷ w.busy; idle = idle }

-- The report of a file that was awaited between two groups of others.
unfoldable pub report_file : List FilePath → FilePath → List FilePath → Outcome → Workers → Workers
unfolding add_report
report_file before file after r w = record w {
  busy = before ++ after;
  idle = w.idle + 1;
  seen = file ∷ w.seen;
  summary = add_report file r w.summary;
}

-- A worker takes the first file, or the report of any file comes.
pub data WorkerStep : Workers → Workers → Type 0 where
  takes :
      {w : Workers} (file : FilePath) (queue : List FilePath) (idle : ℕ)
      → w.queue ≡ file ∷ queue
      → w.idle ≡ idle + 1
      → WorkerStep w (take_file file queue idle w)
  reports :
      {w : Workers} (before : List FilePath) (file : FilePath) (after : List FilePath) (r : Outcome)
      → w.busy ≡ before ++ file ∷ after
      → WorkerStep w (report_file before file after r w)

pub data WorkerRun (w : Workers) : ℕ → Workers → Type 0 where
  no_step : WorkerRun w 0 w
  and_step : {n : ℕ} {v u : Workers} → WorkerRun w n v → WorkerStep v u → WorkerRun w (n + 1) u
