-- ===== src/App/SocketDispatch/Laws.antt =====
-- What the requests of an operator change, and what they do not.
use pid_ctl.Prelude.{arith, ◌≡◌, ◌≢◌, refl, none, some, true, String}
use pid_ctl.Float.{Float, IsIeee, nought, ◌≺◌}
use pid_ctl.App.StateStore.{Files, Json}
use pid_ctl.App.Records.{Readings}
use pid_ctl.App.Session.{set_gains, sync_pid_fields, reset_integral}
use pid_ctl.Core.Controller as Controller
use pid_ctl.App.SocketDispatch.{
  status, set_request, reset, set_response, no_effect, GainParam, gain_kp, gain_ki, gain_kd, Live,
  gain, with_gain, set_gain, apply_gain_param, handle_socket_request, handle_socket_set,
  set_interval, reset_response, status_response, status_of,
}

module _ {F : Type 0} ⦃float : Float F⦄ {D : Type 0} where
  -- Setting one gain answers with the old and the new value, sets that gain and only that one: the
  -- other two, the setpoint, the state of the controller, the runtime controls and the
  -- world stay as they are.
  set_gain_frame :
      (param : String) (g other : GainParam) (v : F) (x : Live F D)
      → other ≢ g
      → let r = set_gain param g v x in
        (r.0 ≡ set_response true param (gain g x.session) v)
        × (gain g r.2.session ≡ v)
        × (gain other r.2.session ≡ gain other x.session)
        × (r.2.session.controller.config.setpoint ≡ x.session.controller.config.setpoint)
        × (r.2.session.controller
            ≡ record x.session.controller { config = r.2.session.controller.config })
        × (r.2.controls ≡ x.controls)
        × (r.2.world ≡ x.world)
  unfolding set_gain apply_gain_param with_gain set_gains sync_pid_fields Controller.set_gains
  set_gain_frame param gain_kp gain_kp v x d = absurd (d refl)
  set_gain_frame param gain_ki gain_ki v x d = absurd (d refl)
  set_gain_frame param gain_kd gain_kd v x d = absurd (d refl)
  set_gain_frame param gain_kp gain_ki v x d = ground arith
  set_gain_frame param gain_kp gain_kd v x d = ground arith
  set_gain_frame param gain_ki gain_kp v x d = ground arith
  set_gain_frame param gain_ki gain_kd v x d = ground arith
  set_gain_frame param gain_kd gain_kp v x d = ground arith
  set_gain_frame param gain_kd gain_ki v x d = ground arith

  -- After a gain is set to a new value and then to the old value that the response gave, the
  -- controller is the one there was at the start.
  pub set_gain_undo :
      (param : String) (g : GainParam) (v : F) (x : Live F D)
      → let y = (set_gain param g v x).2 in
        (set_gain param g (gain g x.session) y).2.session.controller ≡ x.session.controller
  unfolding set_gain apply_gain_param with_gain set_gains sync_pid_fields Controller.set_gains
  set_gain_undo param gain_kp v x = refl
  set_gain_undo param gain_ki v x = refl
  set_gain_undo param gain_kd v x = refl

  -- A `reset` answers with the accumulator of the snapshot, and zeroes it there and in the
  -- controller; a status request right after it reports an accumulator of zero and every other
  -- field as before.
  reset_then_status :
      (files : Files D) (format : Json F) (r r' : Readings) (x : Live F D)
      → (y : Live F D) × (handle_socket_request files format reset r x
          ≡ some (reset_response true x.session.snapshot.i_acc, no_effect, y))
        × (y.session.controller.i_acc ≡ nought)
        × (handle_socket_request files format status r' y
            ≡ some
                (status_response (record (status_of x.session) { i_acc = nought }), no_effect, y))
  unfolding handle_socket_request status_of reset_integral Controller.reset_integral
  reset_then_status files format r r' x = (_, refl, refl, refl)

module _ {F : Type 0} ⦃float : Float F⦄ (laws : IsIeee F) {D : Type 0} where
  -- A `set` of the interval to a negative number of seconds panics, whatever the session's state.
  set_interval_negative :
      (files : Files D) (format : Json F) (v : F) (r : Readings) (x : Live F D)
      → v ≺ nought
      → handle_socket_request files format (set_request "interval" v) r x ≡ none
  unfolding handle_socket_request handle_socket_set set_interval
  set_interval_negative files format v r x h = rw (laws.from_secs_negative v h) refl
