-- ===== src/Worker/Scanner/Growth/Whole.antt =====
-- The scan of a whole library in src/worker/scanner.rs, its lock included, loses no book.
use vorleser_server.Prelude.{String, ◌≡◌, refl, ap, true, false, Bool, nat_eq}
use vorleser_server.Errors.{diesel, failed, panicked}
use vorleser_server.Exec.{converted, handled}
use vorleser_server.Exec.Ends.{Ends-state}
use vorleser_server.Db.{Library, Tables}
use vorleser_server.Db.Backend.{Backend}
use vorleser_server.Db.Lawful.{IsLawful}
use vorleser_server.Worker.Host.{Host}
use vorleser_server.Worker.Scanner.{
  passed_on, Scanner, LockingBehavior, block, error, dont, Scan, incremental, full, lock_file_path,
  when_locked, locking, closing, aquire_lock_file,
}
use vorleser_server.Worker.Scanner.Deleted.{recover_deleted, delete_not_in_fs}
use vorleser_server.Worker.Scanner.Multifile.Storing.{IsQuiet}
use vorleser_server.Worker.Scanner.Run.{walk_books, scan_library, incremental_scan, full_scan}
use vorleser_server.Worker.Scanner.Growth.{
  GrowsTo, of_view, after_bind, after_handled, after_converted, passed_on-Grows,
}
use vorleser_server.Worker.Scanner.Growth.Deleting.{recover_deleted-Grows, delete_not_in_fs-Grows}
use vorleser_server.Worker.Scanner.Growth.Scanning.{walk_books-Grows}
use vorleser_server.Models.Audiobook.Growth.{Grows-trans, Grows-same}

-- The connection and the lock of the scanner touch no table.
pub record LocksQuietly {S : Type 0} (view : S → Tables) (H : Host S) : Type 0 where
  pub connection_law : (s : S) → view (H.get_connection s).1 ≡ view s
  pub create_law : (p : String) (s : S) → view (H.create_lock_file p s).1 ≡ view s
  pub try_law : (p : String) (s : S) → view (H.try_lock_exclusive p s).1 ≡ view s
  pub lock_law : (p : String) (s : S) → view (H.lock_exclusive p s).1 ≡ view s
  pub close_law : (p : String) (s : S) → view (H.close_lock_file p s) ≡ view s

module _ (B : Backend) (L : IsLawful B) (H : Host B.State) (self : Scanner)
    (W : IsQuiet (L.view) H) where
  open L use {view}

  -- The row of the library is another table's.
  set_last_scan-Grows :
      (p : Library → Bool) (f : Library → Library) (s : B.State)
      → GrowsTo B L s (B.libraries.update p f s).1
  set_last_scan-Grows p f s =
      Ends-state (GrowsTo B L s) (L.libraries.update_law p f s)
        (λ _ s' h. Grows-same (ap (λ t. t.audiobooks) h.0)) (λ _ _ h. of_view B L h.0)

  module _ (K : LocksQuietly (L.view) H) where
    pub scan_library-Grows :
        (scan_type : Scan) (s : B.State) → GrowsTo B L s (scan_library B H self scan_type s).1
    unfolding scan_library
    scan_library-Grows scan_type s = Grows-trans (of_view B L (L.utc_now_law s)) (
        after_bind B L _ (converted (λ _. panicked "unwrap") (H.get_connection (B.utc_now s).1))
          (after_converted B L (λ _. panicked "unwrap") (H.get_connection (B.utc_now s).1)
            (of_view B L (K.connection_law _)))
          (λ _ s₀.
            after_bind B L _ (converted failed (recover_deleted B H self s₀))
              (after_converted B L failed (recover_deleted B H self s₀)
                (recover_deleted-Grows B L H self s₀))
              (λ _ s₁.
                after_bind B L _
                  (handled (passed_on B) (
                    walk_books B H self scan_type self.library.last_scan
                      (H.walk self.library.location s₁) s₁))
                  (after_handled B L (passed_on B)
                    (walk_books B H self scan_type self.library.last_scan
                      (H.walk self.library.location s₁) s₁)
                    (walk_books-Grows B L H self W scan_type _ _ s₁) (passed_on-Grows B L))
                  (λ _ s₂.
                    after_bind B L _ (converted failed (delete_not_in_fs B H self s₂))
                      (after_converted B L failed (delete_not_in_fs B H self s₂)
                        (delete_not_in_fs-Grows B L H self s₂))
                      (λ _ s₃.
                        after_bind B L _ _
                          (after_converted B L failed _
                            (after_converted B L diesel _ (set_last_scan-Grows _ _ s₃)))
                          (λ _ _. of_view B L refl))))))

    when_locked-Grows :
        (behavior : LockingBehavior) (free : Bool) (s : B.State)
        → GrowsTo B L s (when_locked B H self behavior free s).1
    unfolding when_locked
    when_locked-Grows behavior true s = of_view B L refl
    when_locked-Grows block false s = of_view B L (K.lock_law _ s)
    when_locked-Grows error false s = of_view B L refl
    when_locked-Grows dont false s = of_view B L refl

    locking-Grows :
        (behavior : LockingBehavior) (s : B.State) → GrowsTo B L s (locking B H self behavior s).1
    unfolding locking closing
    locking-Grows behavior s =
        after_bind B L _ (H.create_lock_file (lock_file_path B H self) s)
          (of_view B L (K.create_law _ s))
          (λ _ s₁.
            Grows-trans (of_view B L (K.try_law (lock_file_path B H self) s₁))
              (Grows-trans (when_locked-Grows behavior _ _) (of_view B L (K.close_law _ _))))

    aquire-Grows :
        (behavior : LockingBehavior) (s : B.State)
        → GrowsTo B L s (aquire_lock_file B H self behavior s).1
    unfolding aquire_lock_file
    aquire-Grows dont s = of_view B L refl
    aquire-Grows block s = locking-Grows block s
    aquire-Grows error s = locking-Grows error s

    pub full_scan-Grows :
        (behavior : LockingBehavior) (s : B.State) → GrowsTo B L s (full_scan B H self behavior s).1
    unfolding full_scan
    full_scan-Grows behavior s =
        after_bind B L (λ _. scan_library B H self full)
          (converted failed (aquire_lock_file B H self behavior s))
          (after_converted B L failed _ (aquire-Grows behavior s)) (λ _. scan_library-Grows full)

    pub incremental_scan-Grows :
        (behavior : LockingBehavior) (s : B.State)
        → GrowsTo B L s (incremental_scan B H self behavior s).1
    unfolding incremental_scan
    incremental_scan-Grows behavior s =
        after_bind B L (λ _. scan_library B H self incremental)
          (converted failed (aquire_lock_file B H self behavior s))
          (after_converted B L failed _ (aquire-Grows behavior s))
          (λ _. scan_library-Grows incremental)
