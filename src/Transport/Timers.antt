-- ===== src/Transport/Timers.antt =====
-- Every timer that the scheduler holds is the one in the field that stands for it.
use wootty.Base.{
  ℕ, suc, ◌<◌, ◌≡◌, refl, true, not, List, [], ◌∷◌, Option, none, some, some, All, All-keep,
  All-map, keep, arith, ◌==◌,
}
use wootty.Transport.Service.{
  Service, Timer, Task, ping_tick, pong_timeout, set_timer, clear_timer, dispatch_event,
}
use wootty.Transport.Service
use wootty.Transport.Frames.{TimerFields}

-- The field that stands for a task.
abbrev pub field_of : TimerFields → Task → Option ℕ
field_of f ping_tick = f.ping
field_of f pong_timeout = f.pong
field_of f Service.Task.reconnect = f.reconnect

-- No timer runs that the service could not cancel, and handles are not reused.
pub record IsHeld (f : TimerFields) : Type 0 where
  pub held : All (λ (t : Timer). field_of f t.task ≡ some t.handle) f.pending
  pub fresh : All (λ (t : Timer). t.handle < f.next_handle) f.pending

-- The timers without those of a handle, and with the field of a task emptied.
abbrev pub with_field : TimerFields → Task → Option ℕ → TimerFields
with_field f ping_tick o = record f { ping = o }
with_field f pong_timeout o = record f { pong = o }
with_field f Service.Task.reconnect o = record f { reconnect = o }

abbrev pub without : ℕ → TimerFields → TimerFields
without handle f = record f { pending = keep (λ (t : Timer). not (t.handle == handle)) f.pending }

abbrev pub with_timer : Task → ℕ → TimerFields → TimerFields
with_timer task delay_ms f = record f {
  pending = record { handle = f.next_handle; task = task; delay_ms = delay_ms } ∷ f.pending;
  next_handle = suc f.next_handle;
}

-- Emptying a field while its timer goes leaves the other timers with their fields.
kept_field :
    (f : TimerFields) (task : Task) (handle : ℕ) (t : Timer)
    → field_of f task ≡ some handle
    → field_of f t.task ≡ some t.handle
    → not (t.handle == handle) ≡ true
    → field_of (with_field (without handle f) task none) t.task ≡ some t.handle
kept_field f ping_tick handle t e h k = ground arith
kept_field f pong_timeout handle t e h k = ground arith
kept_field f Service.Task.reconnect handle t e h k = ground arith

set_field :
    (f : TimerFields) (task : Task) (o : Option ℕ) (t : Timer)
    → field_of f task ≡ none
    → field_of f t.task ≡ some t.handle
    → field_of (with_field f task o) t.task ≡ some t.handle
set_field f ping_tick o t e h = ground arith
set_field f pong_timeout o t e h = ground arith
set_field f Service.Task.reconnect o t e h = ground arith

abbrev IsFresh : ℕ → List Timer → Type 0
IsFresh n = All (λ (t : Timer). t.handle < n)

IsFresh-keep :
    (n handle : ℕ) (ts : List Timer)
    → IsFresh n ts
    → IsFresh n (keep (λ (t : Timer). not (t.handle == handle)) ts)
IsFresh-keep n handle ts h = All-keep (λ (t : Timer). not (t.handle == handle)) (λ t lt k. lt) ts h

IsFresh-suc : (n : ℕ) (ts : List Timer) → IsFresh n ts → IsFresh (suc n) ts
IsFresh-suc n ts h = All-map (λ t lt. omega arith) ts h

pub clear_field-IsHeld :
    (f : TimerFields) (task : Task) (handle : ℕ)
    → field_of f task ≡ some handle
    → IsHeld f
    → IsHeld (with_field (without handle f) task none)
clear_field-IsHeld f ping_tick handle e v = record {
  held = All-keep _ (λ t h k. kept_field f ping_tick handle t e h k) f.pending v.held;
  fresh = IsFresh-keep f.next_handle handle f.pending v.fresh;
}
clear_field-IsHeld f pong_timeout handle e v = record {
  held = All-keep _ (λ t h k. kept_field f pong_timeout handle t e h k) f.pending v.held;
  fresh = IsFresh-keep f.next_handle handle f.pending v.fresh;
}
clear_field-IsHeld f Service.Task.reconnect handle e v = record {
  held = All-keep _ (λ t h k. kept_field f Service.Task.reconnect handle t e h k) f.pending v.held;
  fresh = IsFresh-keep f.next_handle handle f.pending v.fresh;
}

pub set_field-IsHeld :
    (f : TimerFields) (task : Task) (delay_ms : ℕ)
    → field_of f task ≡ none
    → IsHeld f
    → IsHeld (with_field (with_timer task delay_ms f) task (some f.next_handle))
set_field-IsHeld f ping_tick d e v = record {
  held = (refl, All-map (λ t h. set_field f ping_tick (some f.next_handle) t e h) f.pending v.held);
  fresh = (omega arith, IsFresh-suc f.next_handle f.pending v.fresh);
}
set_field-IsHeld f pong_timeout d e v = record {
  held =
      (refl, All-map (λ t h. set_field f pong_timeout (some f.next_handle) t e h) f.pending v.held);
  fresh = (omega arith, IsFresh-suc f.next_handle f.pending v.fresh);
}
set_field-IsHeld f Service.Task.reconnect d e v = record {
  held = (
    refl,
    All-map (λ t h. set_field f Service.Task.reconnect (some f.next_handle) t e h) f.pending v.held,
  );
  fresh = (omega arith, IsFresh-suc f.next_handle f.pending v.fresh);
}

-- The scheduler drops a timer by itself; the field may go on holding its handle.
pub without-IsHeld : (f : TimerFields) (handle : ℕ) → IsHeld f → IsHeld (without handle f)
without-IsHeld f handle v = record {
  held = All-keep (λ (t : Timer). not (t.handle == handle)) (λ t h k. h) f.pending v.held;
  fresh = IsFresh-keep f.next_handle handle f.pending v.fresh;
}

-- With every field empty, the scheduler holds nothing.
pub eq-nil_of_IsHeld :
    (f : TimerFields)
    → IsHeld f
    → f.ping ≡ none
    → f.pong ≡ none
    → f.reconnect ≡ none
    → f.pending ≡ []
eq-nil_of_IsHeld f v a b c = go f.pending v.held
  where
    field : (t : Task) → field_of f t ≡ none
    field ping_tick = a
    field pong_timeout = b
    field Service.Task.reconnect = c

    go : (ts : List Timer) → All (λ (t : Timer). field_of f t.task ≡ some t.handle) ts → ts ≡ []
    go [] h = refl
    go (t ∷ ts) h = absurd (cc (field t.task, h.0))
