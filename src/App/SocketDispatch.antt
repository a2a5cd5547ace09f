-- ===== src/App/SocketDispatch.antt =====
-- The operator socket's dispatcher (crates/pid-ctl/src/app/socket_dispatch.rs), with the requests and
-- responses of crates/pid-ctl/src/socket.rs. `none` is a panic: of `Duration::from_secs_f64`, or of
-- a clamp.
pub mod Laws
pub mod Mirroring
use text.Mathlib.Text.{◌==◌ as str_eq}
use pid_ctl.Prelude.{
  ℕ, Bool, true, false, Option, none, some, List, [], ◌∷◌, if◌then◌else◌, unwrap_or, String, ◌||◌,
  ◌>>=◌,
}
use pid_ctl.Float.{Float, nought, as_secs}
use pid_ctl.App.Snapshot.{StateStoreError}
use pid_ctl.App.StateStore.{Files, Json, World}
use pid_ctl.App.Persister.{has_store}
use pid_ctl.App.Records.{Readings, ControllerSession}
use pid_ctl.App.Session.{set_gains, set_setpoint, reset_integral, flush_session}
use pid_ctl.App.Events.{Logger, write_event, gains_changed, integral_reset, socket}
use pid_ctl.App.LoopRuntime.{LoopRuntimeConfig, apply_runtime_interval}

pub data Request (F : Type 0) : Type 0 where
  status : Request F
  set_request : String → F → Request F
  reset : Request F
  hold : Request F
  resume : Request F
  save : Request F

-- The error text of `save` is given by the error itself.
pub data AckError : Type 0 where
  no_state_store : AckError
  save_failed : StateStoreError → AckError

pub record Status (F : Type 0) : Type 0 where
  pub ok : Bool
  pub iter : ℕ
  pub pv : F
  pub sp : F
  pub err : F
  pub kp : F
  pub ki : F
  pub kd : F
  pub cv : F
  pub i_acc : F

pub data Response (F : Type 0) : Type 0 where
  status_response : Status F → Response F
  set_response : Bool → String → F → F → Response F
  reset_response : Bool → F → Response F
  ack : Bool → Option AckError → Response F
  error_unknown_param : Bool → String → List String → Response F

pub data SocketSideEffect : Type 0 where
  no_effect hold_effect resume_effect interval_changed : SocketSideEffect

pub data GainParam : Type 0 where
  gain_kp gain_ki gain_kd : GainParam

-- What a request changes.
pub record Live (F D : Type 0) : Type 0 where
  pub session : ControllerSession F
  pub controls : LoopRuntimeConfig F
  pub logger : Logger F
  pub world : World D

abbrev pub settable : List String
settable = "kp" ∷ "ki" ∷ "kd" ∷ "sp" ∷ "interval" ∷ []

unfoldable pub saved : {F : Type 0} → Option StateStoreError → Response F
saved none = ack true none
saved (some e) = ack false (some (save_failed e))

module _ {F : Type 0} ⦃float : Float F⦄ where
  unfoldable pub status_of : ControllerSession F → Status F
  status_of s = record {
    ok = true;
    iter = s.snapshot.iter;
    pv = unwrap_or s.snapshot.last_pv nought;
    sp = s.controller.config.setpoint;
    err = unwrap_or s.snapshot.last_error nought;
    kp = s.controller.config.kp;
    ki = s.controller.config.ki;
    kd = s.controller.config.kd;
    cv = unwrap_or s.snapshot.last_cv nought;
    i_acc = s.snapshot.i_acc;
  }

  abbrev pub gain : GainParam → ControllerSession F → F
  gain gain_kp s = s.controller.config.kp
  gain gain_ki s = s.controller.config.ki
  gain gain_kd s = s.controller.config.kd

  -- `session.set_gains` with one of the three replaced.
  unfoldable pub with_gain : GainParam → F → ControllerSession F → ControllerSession F
  with_gain gain_kp v s = set_gains s v s.controller.config.ki s.controller.config.kd
  with_gain gain_ki v s = set_gains s s.controller.config.kp v s.controller.config.kd
  with_gain gain_kd v s = set_gains s s.controller.config.kp s.controller.config.ki v

  -- `emit_gains_changed` for the session, with the given setpoint.
  unfoldable pub log_gains : Logger F → ControllerSession F → F → Logger F
  log_gains l s sp = write_event l (
      gains_changed s.controller.config.kp s.controller.config.ki s.controller.config.kd sp
        s.snapshot.iter socket)

  module _ {D : Type 0} where
    -- `apply_gain_param`: the old value.
    unfoldable pub apply_gain_param : GainParam → F → Live F D → F × Live F D
    apply_gain_param g v x =
        let s = with_gain g v x.session in
        (
          gain g x.session,
          record x { session = s; logger = log_gains x.logger s s.controller.config.setpoint },
        )

    unfoldable pub set_gain :
        String → GainParam → F → Live F D → Response F × SocketSideEffect × Live F D
    set_gain param g v x =
        let q = apply_gain_param g v x in (set_response true param q.0 v, no_effect, q.1)

    unfoldable pub set_sp : F → Live F D → Response F × SocketSideEffect × Live F D
    set_sp v x =
        let s = set_setpoint x.session v in
        (
          set_response true "sp" x.session.controller.config.setpoint v,
          no_effect,
          record x { session = s; logger = log_gains x.logger s v },
        )

    unfoldable pub set_interval : F → Live F D → Option (Response F × SocketSideEffect × Live F D)
    set_interval v x = float.from_secs v >>= λ d.
        apply_runtime_interval x.session x.controls d >>= λ q. some (
          set_response true "interval" (as_secs x.controls.interval) v,
          interval_changed,
          record x { session = q.0; controls = q.1 },
        )

    unfoldable pub handle_socket_set :
        String → F → Live F D → Option (Response F × SocketSideEffect × Live F D)
    handle_socket_set param v x =
        if str_eq param "kp"
        then some (set_gain param gain_kp v x)
        else if str_eq param "ki"
        then some (set_gain param gain_ki v x)
        else if str_eq param "kd"
        then some (set_gain param gain_kd v x)
        else if str_eq param "sp"
        then some (set_sp v x)
        else if str_eq param "interval"
        then set_interval v x
        else some (error_unknown_param false param settable, no_effect, x)

    unfoldable pub handle_socket_request :
        (files : Files D) (format : Json F)
        → Request F
        → Readings
        → Live F D
        → Option (Response F × SocketSideEffect × Live F D)
    handle_socket_request files format status r x =
        some (status_response (status_of x.session), no_effect, x)
    handle_socket_request files format (set_request param v) r x = handle_socket_set param v x
    handle_socket_request files format reset r x = some (
      reset_response true x.session.snapshot.i_acc,
      no_effect,
      record x {
        session = reset_integral x.session;
        logger =
            write_event x.logger
              (integral_reset x.session.snapshot.i_acc x.session.snapshot.iter socket);
      },
    )
    handle_socket_request files format hold r x = some (ack true none, hold_effect, x)
    handle_socket_request files format resume r x = some (ack true none, resume_effect, x)
    handle_socket_request files format save r x =
        if has_store x.session.persister
        then (let q = flush_session files format x.session r x.world in
            some (saved q.0, no_effect, record x { session = q.1; world = q.2 }))
        else some (ack false (some no_state_store), no_effect, x)
