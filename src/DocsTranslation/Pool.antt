-- ===== src/DocsTranslation/Pool.antt =====
-- The runs of the workers of scripts/translate-docs.js, step by step, in any order of the workers.
use nginx_web_ui.Prelude.{
  ℕ, ◌+◌, ◌-◌, ◌*◌, ◌≡◌, ◌<◌, ◌⊎◌, refl, ap, ◌∙◌, inl, inr, Bool, List, [], ◌∷◌, ◌++◌, arith,
  length, length-append, ltb, Bool-cases, if◌then◌else◌,
}
use nginx_web_ui.FileSafety.Disk.{FilePath}
use nginx_web_ui.DocsTranslation.TranslateFile.{
  Outcome, manual_edit, skipped, rolled_back, finished,
}
use nginx_web_ui.DocsTranslation.Workers.{
  Workers, WorkerStep, takes, reports, WorkerRun, no_step, and_step, started, worker_count,
  take_file, report_file, add_report,
}

-- How many elements pass a test.
abbrev pub times {ℓ} : {A : Type ℓ} → (A → Bool) → List A → ℕ
times p [] = 0
times p (x ∷ xs) = (if p x then 1 else 0) + times p xs

times-append {ℓ} :
    {A : Type ℓ} (p : A → Bool) (xs ys : List A) → times p (xs ++ ys) ≡ times p xs + times p ys
times-append p [] ys = omega arith
times-append p (x ∷ xs) ys = omega (arith, times-append p xs ys)

-- What holds at any time: no file is lost or taken twice, the summary counts the reports, and
-- every worker looks for a file or waits for one.
pub record Sound (files : List FilePath) (workers : ℕ) (n : ℕ) (w : Workers) : Type 0 where
  pub each :
      (p : FilePath → Bool) → times p w.queue + times p w.busy + times p w.seen ≡ times p files
  pub counted : w.summary.done ≡ length w.seen
  pub all_workers : w.idle + length w.busy ≡ workers
  pub steps : n + 2 * length w.queue + length w.busy ≡ 2 * length files

add_report-done :
    (file : FilePath) (r : Outcome) (w : Workers)
    → (add_report file r w.summary).done ≡ w.summary.done + 1
unfolding add_report
add_report-done file manual_edit w = refl
add_report-done file (skipped t) w = refl
add_report-done file (rolled_back c ps) w = refl
add_report-done file (finished t c) w = refl

started-Sound :
    (files : List FilePath) (concurrency : ℕ)
    → Sound files (worker_count concurrency) 0 (started files concurrency)
unfolding started
started-Sound files concurrency = record {
  each = λ p. omega arith;
  counted = refl;
  all_workers = omega arith;
  steps = omega arith;
}

WorkerStep-Sound :
    {files : List FilePath} {workers n : ℕ} {w v : Workers}
    → WorkerStep w v
    → Sound files workers n w
    → Sound files workers (n + 1) v
unfolding take_file report_file
WorkerStep-Sound {w} (takes file queue idle first free) s = record {
  each = λ p. omega (arith, s.each p, ap (times p) first);
  counted = s.counted;
  all_workers = omega (arith, s.all_workers, free);
  steps = omega (arith, s.steps, ap length first);
}
WorkerStep-Sound {w} (reports before file after r awaited) s = record {
  each = λ p. omega (
    arith,
    s.each p,
    ap (times p) awaited,
    times-append p before (file ∷ after),
    times-append p before after,
  );
  counted = add_report-done file r w ∙ ap (λ k. k + 1) s.counted ∙ omega arith;
  all_workers = omega (
    arith,
    s.all_workers,
    ap length awaited,
    length-append before (file ∷ after),
    length-append before after,
  );
  steps = omega (
    arith,
    s.steps,
    ap length awaited,
    length-append before (file ∷ after),
    length-append before after,
  );
}

-- Any run of the workers keeps the files: each of them waits in the queue, is awaited by one worker or was
-- reported, as often as it was selected; the summary counts the reports.
pub WorkerRun-Sound :
    (files : List FilePath) (concurrency : ℕ) {n : ℕ} {w : Workers}
    → WorkerRun (started files concurrency) n w
    → Sound files (worker_count concurrency) n w
WorkerRun-Sound files concurrency no_step = started-Sound files concurrency
WorkerRun-Sound files concurrency (and_step run step) =
    WorkerStep-Sound step (WorkerRun-Sound files concurrency run)

worker_count-positive : (concurrency : ℕ) → 0 < worker_count concurrency
unfolding worker_count
worker_count-positive concurrency = elim (Bool-cases (ltb concurrency 1)) [
  | inl few ↦ rw few (omega arith)
  | inr many ↦ rw many (ground (arith, many))
]

-- Someone can act, or nothing is left.
acts_or_ended :
    {files : List FilePath} {workers n : ℕ} (w : Workers) (queue busy : List FilePath)
    → 0 < workers
    → Sound files workers n w
    → w.queue ≡ queue
    → w.busy ≡ busy
    → ((v : Workers) × WorkerStep w v)
      ⊎ ((n ≡ 2 * length files) × ((p : FilePath → Bool) → times p w.seen ≡ times p files))
acts_or_ended w queue (file ∷ after) some_ s at_queue at_busy =
    inl (report_file [] file after (skipped 0) w, reports [] file after (skipped 0) at_busy)
acts_or_ended w (file ∷ queue) [] some_ s at_queue at_busy =
    let free : w.idle ≡ w.idle - 1 + 1 = omega (arith, some_, s.all_workers, ap length at_busy) in
    inl (take_file file queue (w.idle - 1) w, takes file queue (w.idle - 1) at_queue free)
acts_or_ended w [] [] some_ s at_queue at_busy = inr (
  omega (arith, s.steps, ap length at_queue, ap length at_busy),
  λ p. omega (arith, s.each p, ap (times p) at_queue, ap (times p) at_busy),
)

-- While a file waits or is awaited, some worker can act; otherwise the run has taken two steps for each
-- file, and each file was reported as often as it was selected.
pub WorkerRun-Progress :
    (files : List FilePath) (concurrency : ℕ) {n : ℕ} {w : Workers}
    → WorkerRun (started files concurrency) n w
    → ((v : Workers) × WorkerStep w v)
      ⊎ ((n ≡ 2 * length files) × ((p : FilePath → Bool) → times p w.seen ≡ times p files))
WorkerRun-Progress files concurrency {w = w} run =
    acts_or_ended w w.queue w.busy (worker_count-positive concurrency)
      (WorkerRun-Sound files concurrency run) refl refl
