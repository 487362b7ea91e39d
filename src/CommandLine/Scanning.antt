-- ===== src/CommandLine/Scanning.antt =====
-- run_scan of src/bin/main.rs: all libraries, one after the other.
use vorleser_server.Prelude.{◌≡◌, ◌⊎◌, Bool, true, false, List, [], ◌∷◌, ◌++◌, Result, ok, err}
use vorleser_server.Errors.{Fault, failed, panicked, out_of_fuel}
use vorleser_server.Exec.{Exec, for_each}
use vorleser_server.Exec.Ends.{Ends}
use vorleser_server.Config.{Config}
use vorleser_server.Db.{Library}
use vorleser_server.Db.Backend.{Backend}
use vorleser_server.Db.Lawful.{IsLawful}
use vorleser_server.Worker.Host.{Host}
use vorleser_server.CommandLine.{System, scan_library_of, scan_with, scanner_for}

module _ (B : Backend) (L : IsLawful B) (H : Host B.State) (Y : System B.State) (config : Config)
    (full_scan : Bool) where
  open L use {view}

  -- Taking a connection changes no table.
  abbrev pub ConnectsQuietly : Type 0
  ConnectsQuietly = (s : B.State) → view (Y.connect s).1 ≡ view s

  abbrev HasRegex : Library → Type 0
  HasRegex l = Y.compiles l.is_audiobook_regex ≡ true

  abbrev scan_of : Library → Exec B.State Fault (Unit {0})
  scan_of l = scan_with B H Y full_scan (scanner_for B H Y config l)

  -- No panic.
  abbrev Survives : Result Fault (Unit {0}) → Type 0
  Survives (ok _) = Unit
  Survives (err (failed e)) = Unit
  Survives (err (panicked text)) = ⊥
  Survives (err out_of_fuel) = ⊥

  -- What the scans of some libraries leave behind, whatever they return.
  abbrev pub scanned : List Library → B.State → B.State
  scanned [] s = s
  scanned (l ∷ ls) s = scanned ls (scan_of l s).1

  -- Each of some libraries has a regular expression and can be scanned without a panic.
  abbrev pub Goes : List Library → B.State → Type 0
  Goes [] s = Unit
  Goes (l ∷ ls) s = HasRegex l × Survives (scan_of l s).0 × Goes ls (scan_of l s).1

  -- All libraries were scanned.
  abbrev pub Completed : List Library → B.State → B.State → Type 0
  Completed ls s s' = Goes ls s × (s' ≡ scanned ls s)

  -- Why a library stops all: its regular expression is invalid, or its scan has panicked.
  abbrev pub Stops : Library → B.State → Fault → B.State → Type 0
  Stops l s e s' =
      ((Y.compiles l.is_audiobook_regex ≡ false) × (e ≡ panicked "Invalid Regex!") × (s' ≡ s))
      ⊎ (HasRegex l × (¬ Survives (err e)) × (scan_of l s ≡ (err e, s')))

  -- The libraries in front of the first such library were scanned.
  abbrev pub Stuck : List Library → B.State → Fault → B.State → Type 0
  Stuck ls s e s' =
      (before : List Library) × (l : Library) × (after : List Library) × (ls ≡ before ++ l ∷ after)
      × Goes before s
      × Stops l (scanned before s) e s'

  abbrev all_of : List Library → Exec B.State Fault (Unit {0})
  all_of = for_each (scan_library_of B H Y config full_scan)

  -- The scan began when the tables were what they are at `s`.
  abbrev pub AllScanned : B.State → B.State → Type 0
  AllScanned s s' = (s₁ : B.State) × (view s₁ ≡ view s) × Completed (view s).libraries s₁ s'

  -- It could not begin, or a library has stopped it.
  abbrev pub Halted : B.State → Fault → B.State → Type 0
  Halted s e s' =
      ((e ≡ panicked "unwrap") × (view s' ≡ view s))
      ⊎ ((s₁ : B.State) × (view s₁ ≡ view s) × Stuck (view s).libraries s₁ e s')
