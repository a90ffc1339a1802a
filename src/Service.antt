-- ===== src/Service.antt =====
-- The managed service of cmd/airlock-host: the states that service_linux.go reads from systemd, its
-- Start, Stop and Uninstall, and how service.go resets an enrollment around them. systemd and the file
-- system are a parameter.
pub mod Quoting
pub mod Unenroll
mod Tests
use connectorhost.Common.{
  ℕ, zero, suc, String, Bool, true, false, not, ◌&&◌, ◌||◌, Option, none, some, List, [], ◌∷◌, ◌==◌,
  string_eq, if◌then◌else◌, is_some, Error, Result, ok, err, ◌>>=◌, ◌>>◌, guard, bad_service_state,
  service_not_installed, service_stopped_early, bad_pid,
}
use connectorhost.Dict.{Dict, lookup}

-- nativeServiceState
pub data ServiceState : Type 0 where
  not_installed stopped start_pending running paused stop_pending unknown : ServiceState

unfoldable pub same_state : ServiceState → ServiceState → Bool
same_state not_installed not_installed = true
same_state stopped stopped = true
same_state start_pending start_pending = true
same_state running running = true
same_state paused paused = true
same_state stop_pending stop_pending = true
same_state unknown unknown = true
same_state _ _ = false

-- What the host uses of its surroundings, over a state `W` of them: whether the unit file is there, what
-- `systemctl show` prints, as lines cut at "=", whether a main PID is a number of 32 bits; and what the
-- commands of systemctl, the removal of the unit file, the wait for the host, a tick of the clock, and
-- the reset of the state directory do.
pub record Systemd (W : Type 0) : Type 0 where
  pub unit_exists : W → Result Bool
  pub show : W → Result (Dict String)
  pub is_pid : String → Bool
  pub systemctl : String → W → W × Result (Unit {0})
  pub remove_unit : W → W × Result (Unit {0})
  pub wait_for_ready : W → W × Result (Unit {0})
  pub tick : W → W × Result (Unit {0})
  pub reset_state : W → W × Result (Unit {0})

-- A key that is not printed reads as the empty text.
unfoldable pub property : String → Option String → String
property key none = ""
property key (some value) = value

unfoldable pub active_state : String → ServiceState
active_state s =
    if s == "active"
    then running
    else if s == "activating" || s == "reloading"
    then start_pending
    else if s == "deactivating"
    then stop_pending
    else if s == "inactive" || s == "failed"
    then stopped
    else unknown

-- The properties are the last ones printed under each key.
unfoldable pub read_properties : (String → Bool) → Dict String → Result ServiceState
unfolding property active_state
read_properties is_pid properties =
    let get = λ (key : String). property key (lookup key properties) in
    if get "LoadState" == "not-found"
    then ok stopped
    else if not (get "MainPID" == "") && not (is_pid (get "MainPID"))
    then err bad_pid
    else if get "FreezerState" == "frozen" || get "FreezerState" == "freezing"
    then ok paused
    else ok (active_state (get "ActiveState"))

module _ {W : Type 0} (systemd : Systemd W) where
  abbrev pub Act : Type 0
  Act = W → W × Result (Unit {0})

  unfoldable pub then_do : W × Result (Unit {0}) → Act → W × Result (Unit {0})
  then_do (w, err e) next = (w, err e)
  then_do (w, ok _) next = next w

  shown : Result (Dict String) → Result ServiceState
  unfolding read_properties
  shown (err e) = err e
  shown (ok properties) = read_properties systemd.is_pid properties

  installed_status : W → Result Bool → Result ServiceState
  unfolding shown
  installed_status w (err e) = err e
  installed_status w (ok false) = ok not_installed
  installed_status w (ok true) = shown (systemd.show w)

  -- Status
  unfoldable pub status : W → Result ServiceState
  unfolding installed_status
  status w = installed_status w (systemd.unit_exists w)

  abbrev pub Waited : Type 0
  Waited = Option (W × Result (Unit {0}))

  unfoldable pub look_again : ServiceState → W → Result ServiceState → Waited → Waited
  unfolding same_state
  look_again desired w (err e) later = some (w, err e)
  look_again desired w (ok s) later =
      if same_state s desired
      then some (w, ok tt)
      else if same_state desired running && same_state s stopped
      then some (w, err service_stopped_early)
      else later

  after_tick : W × Result (Unit {0}) → (W → Waited) → Waited
  after_tick (w, err e) next = some (w, err e)
  after_tick (w, ok _) next = next w

  -- waitForState; `none` stands for no result within the fuel.
  unfoldable pub wait_for_state : ℕ → ServiceState → W → Waited
  unfolding look_again after_tick status
  wait_for_state zero desired w = none
  wait_for_state (suc fuel) desired w =
      look_again desired w (status w) (after_tick (systemd.tick w) (wait_for_state fuel desired))

  unfoldable pub waited : Waited → Waited
  waited none = none
  waited (some (w, err e)) = some (w, err e)
  waited (some (w, ok _)) = some (systemd.wait_for_ready w)

  unfoldable pub run_then_wait : ℕ → W × Result (Unit {0}) → Waited
  unfolding waited wait_for_state
  run_then_wait fuel (w, err e) = some (w, err e)
  run_then_wait fuel (w, ok _) = waited (wait_for_state fuel running w)

  unfoldable pub start_from : ℕ → W → Result ServiceState → Waited
  unfolding run_then_wait
  start_from fuel w (err e) = some (w, err e)
  start_from fuel w (ok not_installed) = some (w, err service_not_installed)
  start_from fuel w (ok running) = some (systemd.wait_for_ready w)
  start_from fuel w (ok start_pending) = run_then_wait fuel (w, ok tt)
  start_from fuel w (ok paused) = run_then_wait fuel (systemd.systemctl "thaw" w)
  start_from fuel w (ok _) = run_then_wait fuel (systemd.systemctl "start" w)

  -- Start
  unfoldable pub start_service : ℕ → W → Waited
  unfolding start_from status
  start_service fuel w = start_from fuel w (status w)

  unfoldable pub stop_from : W → Result ServiceState → W × Result (Unit {0})
  stop_from w (err e) = (w, err e)
  stop_from w (ok not_installed) = (w, ok tt)
  stop_from w (ok stopped) = (w, ok tt)
  stop_from w (ok _) = systemd.systemctl "stop" w

  -- Stop
  unfoldable pub stop_service : Act
  unfolding stop_from status
  stop_service w = stop_from w (status w)

  uninstall_stopped : W × Result (Unit {0}) → W × Result (Unit {0})
  unfolding then_do
  uninstall_stopped x =
      then_do (then_do (then_do x (systemd.systemctl "disable")) systemd.remove_unit)
        (systemd.systemctl "daemon-reload")

  uninstall_from : W → Result Bool → Result ServiceState → W × Result (Unit {0})
  unfolding uninstall_stopped stop_from
  uninstall_from w (err e) s = (w, err e)
  uninstall_from w (ok false) s = systemd.systemctl "daemon-reload" w
  uninstall_from w (ok true) (err e) = (w, err e)
  uninstall_from w (ok true) (ok s) = uninstall_stopped (stop_from w (ok s))

  -- Uninstall
  unfoldable pub uninstall : Act
  unfolding uninstall_from status
  uninstall w = uninstall_from w (systemd.unit_exists w) (status w)
