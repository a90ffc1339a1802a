-- ===== src/Service/Tests.antt =====
-- Tests of the service, and its theorems at concrete inputs.
use connectorhost.Common.{
  ◌≡◌, refl, inl, String, some, true, false, [], ◌∷◌, ok, ◌==◌, string_eq, if◌then◌else◌,
}
use connectorhost.Dict.{lookup}
use connectorhost.Text.{contains}
use connectorhost.Service.{Systemd, status}
use connectorhost.Service.Quoting.{
  quote_systemd_argument, read_quoted, read_quoted-quote_systemd_argument,
}
use connectorhost.Service.Unenroll.{IsIdle, prepare_reset, prepare_reset-IsIdle}

-- A system whose state is the text of ActiveState.
abbrev sample_systemd : Systemd String
sample_systemd = record {
  unit_exists = λ w. ok true;
  show = λ w. ok (("ActiveState", w) ∷ []);
  is_pid = λ text. true;
  systemctl = λ name w. if name == "stop" then ("inactive", ok tt) else ("active", ok tt);
  remove_unit = λ w. (w, ok tt);
  wait_for_ready = λ w. (w, ok tt);
  tick = λ w. (w, ok tt);
  reset_state = λ w. (w, ok tt);
}

sample_stop_stops :
    (w : String)
    → (sample_systemd.systemctl "stop" w).1 ≡ ok tt
    → IsIdle sample_systemd (sample_systemd.systemctl "stop" w).0
unfolding status lookup
sample_stop_stops w h = inl refl

prepare_reset-IsIdle_example : IsIdle sample_systemd (prepare_reset sample_systemd "active").0
unfolding prepare_reset status lookup
prepare_reset-IsIdle_example = prepare_reset-IsIdle sample_systemd sample_stop_stops "active" refl

-- The argument `a$"`
read_quoted-quote_systemd_argument_example :
    (read_quoted (quote_systemd_argument (b'a' ∷ b'$' ∷ 34 ∷ [])) ≡ some (b'a' ∷ b'$' ∷ 34 ∷ []))
    × (contains 10 (quote_systemd_argument (b'a' ∷ b'$' ∷ 34 ∷ [])) ≡ false)
    × (contains 13 (quote_systemd_argument (b'a' ∷ b'$' ∷ 34 ∷ [])) ≡ false)
read_quoted-quote_systemd_argument_example =
    read_quoted-quote_systemd_argument (b'a' ∷ b'$' ∷ 34 ∷ [])
