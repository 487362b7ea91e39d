-- ===== src/Worker/Scanner/Locking.antt =====
-- aquire_lock_file of src/worker/scanner.rs: the lock while it runs and when it returns.
use vorleser_server.Prelude.{
  String, ◌≡◌, refl, ◌≢◌, ◌⊎◌, inl, inr, Bool, true, false, Result, ok, err,
}
use vorleser_server.Exec.{lift, ◌>>=◌, continue}
use vorleser_server.Exec.Ends.{Ends, returns, fails}
use vorleser_server.Errors.{Failure, worker_error, locked}
use vorleser_server.Db.Backend.{Backend}
use vorleser_server.Worker.Host.{Host}
use vorleser_server.Worker.Scanner.{Scanner, LockingBehavior, aquire_lock_file}
use vorleser_server.Worker.Scanner.{
  block, error, dont, locking, closing, when_locked, lock_file_path,
}

-- Whether this process holds the lock on the file, as flock documents: asking for it says whether
-- it is held now, waiting ends with it or with an error, and closing the file gives it up.
pub record IsLockable {S : Type 0} (H : Host S) (p : String) : Type 0 where
  pub held : S → Bool
  pub try_law : (s : S) → held (H.try_lock_exclusive p s).1 ≡ (H.try_lock_exclusive p s).0
  pub lock_law :
      (s : S) → Ends (λ _ s'. held s' ≡ true) (λ _ s'. held s' ≡ false) (H.lock_exclusive p s)
  pub close_law : (s : S) → held (H.close_lock_file p s) ≡ false

module _ (B : Backend) (H : Host B.State) (self : Scanner)
    (lock : IsLockable H (lock_file_path B H self)) where
  open lock use {held, try_law, lock_law, close_law}

  abbrev path : String
  path = lock_file_path B H self

  -- The lock was held, and then the file was closed.
  abbrev pub Passed : B.State → Type 0
  Passed s' = (s : B.State) × (held s ≡ true) × (s' ≡ H.close_lock_file path s) × (held s' ≡ false)

  -- Without the lock: another process has it, and that one asked only; or waiting for it failed.
  abbrev pub Missed : LockingBehavior → Failure → B.State → Type 0
  Missed locking_behavior e s' =
      (s : B.State) × (held s ≡ false)
      × (((locking_behavior ≢ block) × (e ≡ worker_error locked))
          ⊎ ((locking_behavior ≡ block)
              × ((s₀ : B.State) × (H.lock_exclusive path s₀ ≡ (err e, s)))))
      × (s' ≡ H.close_lock_file path s)

  -- The lock file could not be made, or it could and the lock was missed.
  abbrev pub Unlocked : LockingBehavior → B.State → Failure → B.State → Type 0
  Unlocked locking_behavior s e s' =
      (H.create_lock_file path s ≡ (err e, s')) ⊎ Missed locking_behavior e s'

  -- What asking and waiting end with.
  abbrev Tried : LockingBehavior → Failure → B.State → Type 0
  Tried locking_behavior e s =
      (held s ≡ false)
      × (((locking_behavior ≢ block) × (e ≡ worker_error locked))
          ⊎ ((locking_behavior ≡ block)
              × ((s₀ : B.State) × (H.lock_exclusive path s₀ ≡ (err e, s)))))

  waited :
      (s₀ : B.State) {r : Result Failure (Unit {0}) × B.State}
      → H.lock_exclusive path s₀ ≡ r
      → Ends (λ _ s'. held s' ≡ true) (λ _ s'. held s' ≡ false) r
      → Ends (λ _ s'. held s' ≡ true) (Tried block) r
  waited s₀ e (returns a s h) = returns a s h
  waited s₀ e (fails f s h) = fails f s (h, inr (refl, (s₀, e)))

  tried :
      (locking_behavior : LockingBehavior) (b : Bool) (s : B.State)
      → held s ≡ b
      → Ends
          (λ _ s'. held s' ≡ true)
          (Tried locking_behavior)
          (when_locked B H self locking_behavior b s)
  unfolding when_locked
  tried locking_behavior true s h = returns tt s h
  tried block false s h = waited s refl (lock_law s)
  tried error false s h = fails _ s (h, inl (λ e. cc, refl))
  tried dont false s h = fails _ s (h, inl (λ e. cc, refl))

  closed :
      (locking_behavior : LockingBehavior) {r : Result Failure (Unit {0}) × B.State}
      → Ends (λ _ s'. held s' ≡ true) (Tried locking_behavior) r
      → Ends
          (λ _. Passed)
          (Missed locking_behavior)
          (let (a, s') = r in (a, H.close_lock_file path s'))
  closed locking_behavior (returns a s h) = returns a _ (s, h, refl, close_law s)
  closed locking_behavior (fails e s h) = fails e _ (s, h.0, h.1, refl)

  locking_lem :
      (locking_behavior : LockingBehavior) (s : B.State)
      → Ends (λ _. Passed) (Unlocked locking_behavior s) (locking B H self locking_behavior s)
  unfolding locking closing
  locking_lem locking_behavior s = opened (H.create_lock_file path s) refl
    where
      later :
          {r : Result Failure (Unit {0}) × B.State}
          → Ends (λ _. Passed) (Missed locking_behavior) r
          → Ends (λ _. Passed) (Unlocked locking_behavior s) r
      later (returns a s h) = returns a s h
      later (fails e s h) = fails e s (inr h)

      opened :
          (r : Result Failure (Unit {0}) × B.State)
          → H.create_lock_file path s ≡ r
          → Ends
              (λ _. Passed)
              (Unlocked locking_behavior s)
              (continue
                (λ _.
                  closing B H self
                    (lift (H.try_lock_exclusive path) >>= when_locked B H self locking_behavior))
                r)
      opened (err e, s') c = fails e s' (inl c)
      opened (ok _, s') c = later (
          closed locking_behavior (
            tried locking_behavior (H.try_lock_exclusive path s').0 (H.try_lock_exclusive path s').1
              (try_law s')))

  -- If a scan waits for the lock or asks for it and `aquire_lock_file` returns normally, then the lock
  -- was held while it ran, and it is given up again when it returns, before the scan begins. It
  -- ends with an error only if the lock file could not be made, if it only asked and another
  -- process has the lock, or if waiting for the lock failed; the file is closed then too.
  pub aquire_lock_file_outcome :
      (locking_behavior : LockingBehavior) (s : B.State)
      → locking_behavior ≢ dont
      → Ends
          (λ _. Passed)
          (Unlocked locking_behavior s)
          (aquire_lock_file B H self locking_behavior s)
  unfolding aquire_lock_file
  aquire_lock_file_outcome block s n = locking_lem block s
  aquire_lock_file_outcome error s n = locking_lem error s
  aquire_lock_file_outcome dont s n = absurd (n refl)
