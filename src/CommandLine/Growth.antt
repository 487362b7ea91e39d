-- ===== src/CommandLine/Growth.antt =====
-- run_scan of src/bin/main.rs loses no book.
use vorleser_server.Prelude.{List, inl, inr, refl, true, Bool, Bool-cases, Result}
use vorleser_server.Errors.{Fault, panicked}
use vorleser_server.Exec.{Exec, for_each, continue, converted}
use vorleser_server.Exec.Ends.{Ends-state}
use vorleser_server.Config.{Config}
use vorleser_server.Db.{Library}
use vorleser_server.Db.Backend.{Backend}
use vorleser_server.Db.Lawful.{IsLawful}
use vorleser_server.Worker.Host.{Host}
use vorleser_server.Worker.Scanner.{block}
use vorleser_server.Worker.Scanner.Multifile.Storing.{IsQuiet}
use vorleser_server.Models.Audiobook.Growth.{Grows}
use vorleser_server.Worker.Scanner.Growth.{
  passed_on-Grows, GrowsTo, of_view, after_bind, after_handled, after_converted, after_each,
}
use vorleser_server.Worker.Scanner.Growth.Whole.{
  LocksQuietly, full_scan-Grows, incremental_scan-Grows,
}
use vorleser_server.Worker.Scanner.{passed_on}
use vorleser_server.CommandLine.{System, run_scan, scan_library_of, scan_with, scanner_for}
use vorleser_server.CommandLine.Scanning.{ConnectsQuietly}

module _ (B : Backend) (L : IsLawful B) (H : Host B.State) (Y : System B.State) (config : Config)
    (full_scan : Bool) (W : IsQuiet (L.view) H) (K : LocksQuietly (L.view) H) where
  open L use {view}

  scan_with-Grows :
      (l : Library) (s : B.State)
      → GrowsTo B L s (scan_with B H Y full_scan (scanner_for B H Y config l) s).1
  unfolding scan_with
  scan_with-Grows l s = elim (Bool-cases full_scan) [
    | inl e ↦ rw e (full_scan-Grows B L H (scanner_for B H Y config l) W K block s)
    | inr e ↦ rw e (incremental_scan-Grows B L H (scanner_for B H Y config l) W K block s)
  ]

  scan_library_of-Grows :
      (l : Library) (s : B.State) → GrowsTo B L s (scan_library_of B H Y config full_scan l s).1
  unfolding scan_library_of
  scan_library_of-Grows l s = elim (Bool-cases (Y.compiles l.is_audiobook_regex)) [
    | inl e ↦ rw e (
        after_handled B L (passed_on B) (scan_with B H Y full_scan (scanner_for B H Y config l) s)
          (scan_with-Grows l s) (passed_on-Grows B L))
    | inr e ↦ rw e (of_view B L refl)
  ]

  -- If what the scanner and its lock do to files and the taking of a connection change no
  -- table, then however run_scan ends, with every library scanned, with failures among the scans, or
  -- with a panic: the keys of the audiobooks are unique after it if they were before, and every key
  -- that the table had is still in it.
  pub run_scan-Grows :
      ConnectsQuietly B L H Y config full_scan
      → (s : B.State)
      → Grows (view s).audiobooks (view (run_scan B H Y config full_scan s).1).audiobooks
  unfolding run_scan
  run_scan-Grows quiet s =
      after_bind B L scan_loaded (converted (λ _. panicked "unwrap") (Y.connect s))
        (after_converted B L (λ _. panicked "unwrap") (Y.connect s) (of_view B L (quiet s)))
        (λ _ s₁.
          after_bind B L (for_each (scan_library_of B H Y config full_scan)) (loaded s₁)
            (after_converted B L (λ _. panicked "unwrap") (B.libraries.load (λ _. true) s₁)
              (Ends-state (GrowsTo B L s₁) (L.libraries.load_law (λ _. true) s₁)
                (λ _ _ h. of_view B L h.0) (λ _ _ h. of_view B L h.0)))
            (λ ls s₂.
              after_each B L (scan_library_of B H Y config full_scan) scan_library_of-Grows ls s₂))
    where
      loaded : B.State → Result Fault (List Library) × B.State
      loaded s₁ = converted (λ _. panicked "unwrap") (B.libraries.load (λ _. true) s₁)

      scan_loaded : Unit {0} → Exec B.State Fault (Unit {0})
      scan_loaded _ s₁ = continue (for_each (scan_library_of B H Y config full_scan)) (loaded s₁)
