-- ===== src/Transport/Soundness.antt =====
-- The invariant of Transport/Invariant in every state that the transport reaches.
use wootty.Base.{ℕ, Bool, Option, Text, inl, refl, Listed, All-Listed, arith}
use wootty.Sanitization.{UrlApi}
use wootty.Transport.Browser.{Browser}
use wootty.Transport.Service.{Service, Timer}
use wootty.Transport.Lifecycle.{update_runtime, fire}
use wootty.Transport.Frames.{send_payload-Quiet}
use wootty.Transport.Steps.{
  initial_service, Step, updates, connects, reconnects, changes_endpoint, starts_fresh, disposes,
  sends, marks_pong, opens, receives, errs, closes, fires, moves, Reach, start, next,
}
use wootty.Transport.Invariant.{IsSound, Quiet-IsSound, connect-IsSound}
use wootty.Transport.Reachable.{
  same_parts-IsSound, mark_pong-IsSound, reconnect_now-IsSound, schedule_fresh_connection-IsSound,
  endpoint_change-IsSound, dispose_service-IsSound, on_socket_open-IsSound,
  on_socket_message-IsSound, on_socket_error-IsSound, on_socket_close-IsSound, fire_task-IsSound,
}

module _ {N U : Type 0} (browser : Browser N) (api : UrlApi U) where
  fire-IsSound :
      (t : Timer) (s : Service N) → Listed t s.pending → IsSound s → IsSound (fire browser api t s)
  unfolding fire
  fire-IsSound t s m v =
      fire_task-IsSound browser api t.task t.handle s (All-Listed _ t s.pending v.timers.held m) v

  updated :
      (url : Option Text) (context : Bool) (s : Service N)
      → IsSound s
      → IsSound (update_runtime url context s)
  unfolding update_runtime
  updated url context s v = same_parts-IsSound {s = s} refl refl refl v

  Step-IsSound : {s t : Service N} → Step browser api s t → IsSound s → IsSound t
  Step-IsSound {s} (updates url context) v = updated url context s v
  Step-IsSound {s} connects v = connect-IsSound browser api s v
  Step-IsSound {s} reconnects v = reconnect_now-IsSound browser api s v
  Step-IsSound {s} changes_endpoint v = endpoint_change-IsSound browser api s v
  Step-IsSound {s} starts_fresh v = schedule_fresh_connection-IsSound browser api s v
  Step-IsSound {s} disposes v = dispose_service-IsSound browser api s v
  Step-IsSound {s} (sends payload) v = Quiet-IsSound (send_payload-Quiet browser api payload s) v
  Step-IsSound {s} marks_pong v = mark_pong-IsSound s v
  Step-IsSound {s} (opens k g m) v = on_socket_open-IsSound browser api k g s v
  Step-IsSound {s} (receives k g e m) v = on_socket_message-IsSound browser api k g e s v
  Step-IsSound {s} (errs k g e m) v = on_socket_error-IsSound browser api k g e s v
  Step-IsSound {s} (closes k g c r m) v = on_socket_close-IsSound browser api k g c r s v
  Step-IsSound {s} (fires t m) v = fire-IsSound t s m v
  Step-IsSound {s} (moves now net) v = same_parts-IsSound {s = s} refl refl refl v

  initial_service-IsSound : (net : N) (now : ℕ) → IsSound (initial_service net now)
  unfolding initial_service
  initial_service-IsSound net now = record {
    timers = record { held = tt; fresh = tt };
    bound = inl (refl, refl, refl);
    attempts = omega arith;
  }

  -- In every state that the transport reaches, each pending timer is held in the field that can
  -- cancel it and no handle is reused; at most one socket has listeners, namely the socket in use
  -- with the current generation; and no more than 8 reconnect attempts are counted.
  pub Reach-IsSound : (s : Service N) → Reach browser api s → IsSound s
  Reach-IsSound s (start net now) = initial_service-IsSound net now
  Reach-IsSound s (next {s = u} r step) = Step-IsSound step (Reach-IsSound u r)
