-- ===== src/App/Call.antt =====
-- Signing out while a voice call is on: AuthViewModel::logout with VoiceViewModel.
use voxter.Common.{◌≡◌, refl, ap, sym, subst, false, List, [], ◌∷◌, arith}
use voxter.Store.{AppStore, clear_session}
use voxter.Gateway
use voxter.Gateway.{disconnect_from_gateway}
use voxter.Auth
use voxter.Auth.{logout}
use voxter.Voice.Run.{leaves, toggles_mute, toggles_deafen, step}
use voxter.Voice.Session.{leave_voice, toggle_mute, toggle_deafen}
use voxter.App.{App, with_auth, with_voice}
use voxter.App.Run.{World, Action, voice_input, signs_out, act, voice_step, run}

-- The buttons of a call: hanging up, and the two switches.
pub data Button : Type 0 where
  hang_up mute deafen : Button

abbrev pub press : Button → Action
press hang_up = voice_input leaves
press mute = voice_input toggles_mute
press deafen = voice_input toggles_deafen

abbrev pub presses : List Button → List Action
presses [] = []
presses (b ∷ bs) = press b ∷ presses bs

-- what a button does without a guild
abbrev pub stored : App → App
stored a = record a { voice = record a.voice { store = a.store } }

press-idle :
    (world : World) (b : Button) (a : App)
    → a.store.current_guild_id ≡ ""
    → act world (press b) a ≡ stored a
unfolding act voice_step with_voice step leave_voice toggle_mute toggle_deafen
press-idle world hang_up a e = ground (arith, e)
press-idle world mute a e = ground (arith, e)
press-idle world deafen a e = ground (arith, e)

-- what pressing buttons leaves as it is
record Kept (a b : App) : Type 0 where
  same_store : b.store ≡ a.store
  same_gateway : b.gateway ≡ a.gateway
  engine : b.voice.engine ≡ a.voice.engine
  view : b.voice.view ≡ a.voice.view
  pending : b.voice.pending ≡ a.voice.pending

run-press-Kept :
    (world : World) (bs : List Button) (a : App)
    → a.store.current_guild_id ≡ ""
    → Kept a (run world (presses bs) a)
unfolding run
run-press-Kept world [] a e = record {
  same_store = refl;
  same_gateway = refl;
  engine = refl;
  view = refl;
  pending = refl;
}
run-press-Kept world (b ∷ bs) a e =
    let h = run-press-Kept world bs (stored a) e in
    subst (λ (c : App). Kept a (run world (presses bs) c)) (sym (press-idle world b a e))
      (record {
        same_store = h.same_store;
        same_gateway = h.same_gateway;
        engine = h.engine;
        view = h.view;
        pending = h.pending;
      })

-- Signing out leaves a voice call as it is: the microphone and LiveKit's connection go on, sound is
-- sent if it was sent before, and no call to leave goes to the server. From then on the user cannot
-- end it either: however often they press the buttons for hanging up, muting and deafening, the
-- engine, the view and the calls in flight stay as they were before signing out.
pub sign_out_keeps_call :
    (world : World) (bs : List Button) (a : App)
    → let b = run world (signs_out ∷ presses bs) a in
      (b.store.authenticated ≡ false)
      × (b.gateway.access_token ≡ "")
      × (b.voice.engine ≡ a.voice.engine)
      × (b.voice.view ≡ a.voice.view)
      × (b.voice.pending ≡ a.voice.pending)
unfolding run act with_auth logout clear_session disconnect_from_gateway Auth.set_error
    Gateway.set_connection_state Gateway.set_reconnect_attempt
sign_out_keeps_call world bs a =
    let h = run-press-Kept world bs (with_auth logout a) refl in
    (
      ap (λ (s : AppStore). s.authenticated) h.same_store,
      ap (λ (g : Gateway.Gateway). g.access_token) h.same_gateway,
      h.engine,
      h.view,
      h.pending,
    )
