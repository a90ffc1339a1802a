-- ===== src/Service/Unenroll.antt =====
-- enrollManagedService and unenrollManagedService of service.go. A file of the state is only removed or
-- replaced while the service that uses it is stopped.
use connectorhost.Common.{
  ℕ, ◌≡◌, refl, ◌⊎◌, inl, inr, Bool, true, false, none, some, Result, ok, err, bad_service_state,
}
use connectorhost.Service.{
  ServiceState, not_installed, stopped, start_pending, running, paused, stop_pending, unknown,
  Systemd, status, stop_service, stop_from, start_service, Waited,
}

module _ {W : Type 0} (systemd : Systemd W) where
  -- All of unenrollManagedService up to the reset of the state
  unfoldable pub prepare_from : W → Result ServiceState → W × Result (Unit {0})
  unfolding stop_service
  prepare_from w (err e) = (w, err e)
  prepare_from w (ok unknown) = (w, err bad_service_state)
  prepare_from w (ok stopped) = (w, ok tt)
  prepare_from w (ok not_installed) = (w, ok tt)
  prepare_from w (ok _) = stop_service systemd w

  unfoldable pub prepare_reset : W → W × Result (Unit {0})
  unfolding prepare_from
  prepare_reset w = prepare_from w (status systemd w)

  -- The service is started again if it was running or starting.
  unfoldable pub restarts : Result ServiceState → Bool
  restarts (ok running) = true
  restarts (ok start_pending) = true
  restarts _ = false

  joined : Result (Unit {0}) → Result (Unit {0}) → Result (Unit {0})
  joined (err e) later = err e
  joined (ok _) later = later

  joined_start : Result (Unit {0}) → Waited systemd → Waited systemd
  unfolding joined
  joined_start reset none = none
  joined_start reset (some (w, started)) = some (w, joined reset started)

  unfoldable pub after_reset : ℕ → Bool → W × Result (Unit {0}) → Waited systemd
  unfolding joined_start start_service
  after_reset fuel false x = some x
  after_reset fuel true (w, reset) = joined_start reset (start_service systemd fuel w)

  unfoldable pub reset_prepared : ℕ → Bool → W × Result (Unit {0}) → Waited systemd
  unfolding after_reset
  reset_prepared fuel again (w, err e) = some (w, err e)
  reset_prepared fuel again (w, ok _) = after_reset fuel again (systemd.reset_state w)

  -- unenrollManagedService
  unfoldable pub unenroll_managed_service : ℕ → W → Waited systemd
  unfolding reset_prepared prepare_reset restarts
  unenroll_managed_service fuel w =
      reset_prepared fuel (restarts (status systemd w)) (prepare_reset w)

  -- The service does not use its state.
  abbrev pub IsIdle : W → Type 0
  IsIdle w = (status systemd w ≡ ok stopped) ⊎ (status systemd w ≡ ok not_installed)

  module _
      (stop_stops : (w : W)
        → (systemd.systemctl "stop" w).1 ≡ ok tt
        → IsIdle (systemd.systemctl "stop" w).0) where
    stop_from-IsIdle :
        (w : W) (s : Result ServiceState)
        → status systemd w ≡ s
        → (stop_from systemd w s).1 ≡ ok tt
        → IsIdle (stop_from systemd w s).0
    unfolding stop_from
    stop_from-IsIdle w (err e) q h = absurd (cc (h))
    stop_from-IsIdle w (ok not_installed) q h = inr q
    stop_from-IsIdle w (ok stopped) q h = inl q
    stop_from-IsIdle w (ok start_pending) q h = stop_stops w h
    stop_from-IsIdle w (ok running) q h = stop_stops w h
    stop_from-IsIdle w (ok paused) q h = stop_stops w h
    stop_from-IsIdle w (ok stop_pending) q h = stop_stops w h
    stop_from-IsIdle w (ok unknown) q h = stop_stops w h

    stop_service-IsIdle :
        (w : W) → (stop_service systemd w).1 ≡ ok tt → IsIdle (stop_service systemd w).0
    unfolding stop_service
    stop_service-IsIdle w h = stop_from-IsIdle w (status systemd w) refl h

    prepare_from-IsIdle :
        (w : W) (s : Result ServiceState)
        → status systemd w ≡ s
        → (prepare_from w s).1 ≡ ok tt
        → IsIdle (prepare_from w s).0
    unfolding prepare_from
    prepare_from-IsIdle w (err e) q h = absurd (cc (h))
    prepare_from-IsIdle w (ok unknown) q h = absurd (cc (h))
    prepare_from-IsIdle w (ok stopped) q h = inl q
    prepare_from-IsIdle w (ok not_installed) q h = inr q
    prepare_from-IsIdle w (ok start_pending) q h = stop_service-IsIdle w h
    prepare_from-IsIdle w (ok running) q h = stop_service-IsIdle w h
    prepare_from-IsIdle w (ok paused) q h = stop_service-IsIdle w h
    prepare_from-IsIdle w (ok stop_pending) q h = stop_service-IsIdle w h

    -- Where a successful `systemctl stop` leaves the unit stopped: unenrollManagedService comes to the
    -- reset of the state, from any state of the service, only where Status says that the service is
    -- stopped or not installed.
    pub prepare_reset-IsIdle : (w : W) → (prepare_reset w).1 ≡ ok tt → IsIdle (prepare_reset w).0
    unfolding prepare_reset
    prepare_reset-IsIdle w h = prepare_from-IsIdle w (status systemd w) refl h
