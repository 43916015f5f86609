-- ===== src/Polling/Preservation.antt =====
-- The steps of polling keep to its states.
use wootty.Base.{
  ℕ, ◌+◌, ◌≤◌, ◌≡◌, refl, sym, subst, ap, ◌∙◌, Bool, true, false, List, [], ◌∷◌, Option, none, some,
  inl, inr, Bool-cases, leb, ◌==◌, if◌then◌else◌, arith,
}
use wootty.Refresh.{RefreshResult}
use wootty.Polling.{
  PollingResult, success, ignored_failure, bootstrap_retry, counted_failure,
  classify_polling_refresh_result, Run, no_run, waiting, handled, PollingCall, Polling,
  start_polling, refresh_settles, on_polling_result, refresh_rejects, refresh_finishes, timer_fires,
  dispose_polling, open_circuit_breaker, find_timer, fire_pending, run_task, Timer,
}
use wootty.Polling.Shape.{
  Step, settles, rejects, finishes, fires, disposes, Reach, start, next, Shape, asking, told,
  told_to_retry, broken, resting, cooling, ended,
}

start_polling-Shape : Shape start_polling
unfolding start_polling
start_polling-Shape = asking 0 0 1 _ (omega arith)

dispose_polling-Shape : {s : Polling} → Shape s → Shape (dispose_polling s)
unfolding dispose_polling
dispose_polling-Shape (asking c failures id calls le) = ended _ _ _ _ _ _ _
dispose_polling-Shape (told c failures id calls le) = ended _ _ _ _ _ _ _
dispose_polling-Shape (told_to_retry c h id calls) =
    let e : (h == h) ≡ true = ground arith in rw e (ended _ _ _ _ _ _ _)
dispose_polling-Shape (broken c h id calls) =
    let e : (h == h) ≡ true = ground arith in rw e (ended _ _ _ _ _ _ _)
dispose_polling-Shape (resting h failures d id calls le) =
    let e : (h == h) ≡ true = ground arith in rw e (ended _ _ _ _ _ _ _)
dispose_polling-Shape (cooling h id calls) =
    let e : (h == h) ≡ true = ground arith in rw e (ended _ _ _ _ _ _ _)
dispose_polling-Shape (ended none flight broke failures run id calls) = ended _ _ _ _ _ _ _
dispose_polling-Shape (ended (some h) flight broke failures run id calls) = ended _ _ _ _ _ _ _

-- The circuit opens while the request is being told of its failure.
abbrev on_polling_opened : ℕ → ℕ → ℕ → List PollingCall → Polling
on_polling_opened failures c id calls = open_circuit_breaker (record {
  refresh_in_flight = true;
  disposed = false;
  refresh_timer = none;
  consecutive_failures = failures;
  circuit_open = false;
  active_controller = some c;
  run = handled c;
  next_id = id;
  timers = [];
  calls = calls;
})

result-Shape :
    (r : PollingResult) (c failures id : ℕ) (calls : List PollingCall)
    → failures ≤ 5
    → Shape (
        on_polling_result r (record {
          refresh_in_flight = true;
          disposed = false;
          refresh_timer = none;
          consecutive_failures = failures;
          circuit_open = false;
          active_controller = some c;
          run = handled c;
          next_id = id;
          timers = [];
          calls = calls;
        }))
result-Shape success c failures id calls le = told _ _ _ _ (omega arith)
result-Shape ignored_failure c failures id calls le = told _ _ _ _ le
result-Shape bootstrap_retry c failures id calls le = told_to_retry _ _ _ _
result-Shape counted_failure c failures id calls le = elim (Bool-cases (leb 6 (failures + 1))) [
  | inl full ↦
      let six : failures + 1 ≡ 6 = ground (arith, full) in
      rw full (subst (λ n. Shape (on_polling_opened n c id calls)) (sym six) (broken _ _ _ _))
  | inr room ↦ rw room (told _ _ _ _ (ground (arith, room)))
]

ended_result :
    (r : PollingResult) (timer : Option ℕ) (flight broke : Bool) (failures : ℕ) (run : Run) (id : ℕ)
    (calls : List PollingCall)
    → Shape (
        on_polling_result r (record {
          refresh_in_flight = flight;
          disposed = true;
          refresh_timer = timer;
          consecutive_failures = failures;
          circuit_open = broke;
          active_controller = none;
          run = run;
          next_id = id;
          timers = [];
          calls = calls;
        }))
ended_result success timer flight broke failures run id calls = ended _ _ _ _ _ _ _
ended_result ignored_failure timer flight broke failures run id calls = ended _ _ _ _ _ _ _
ended_result bootstrap_retry timer flight broke failures run id calls = ended _ _ _ _ _ _ _
ended_result counted_failure timer flight broke failures run id calls =
    elim (Bool-cases (leb 6 (failures + 1))) [
      | inl full ↦ rw full (ended _ _ _ _ _ _ _)
      | inr room ↦ rw room (ended _ _ _ _ _ _ _)
    ]

refresh_settles-Shape : {s : Polling} (r : RefreshResult) → Shape s → Shape (refresh_settles r s)
unfolding refresh_settles
refresh_settles-Shape r (asking c failures id calls le) =
    result-Shape (classify_polling_refresh_result r) c failures id calls le
refresh_settles-Shape r (told c failures id calls le) = told _ _ _ _ le
refresh_settles-Shape r (told_to_retry c h id calls) = told_to_retry _ _ _ _
refresh_settles-Shape r (broken c h id calls) = broken _ _ _ _
refresh_settles-Shape r (resting h failures d id calls le) = resting _ _ _ _ _ le
refresh_settles-Shape r (cooling h id calls) = cooling _ _ _
refresh_settles-Shape r (ended timer flight broke failures no_run id calls) = ended _ _ _ _ _ _ _
refresh_settles-Shape r (ended timer flight broke failures (handled c) id calls) =
    ended _ _ _ _ _ _ _
refresh_settles-Shape r (ended timer flight broke failures (waiting c) id calls) =
    ended_result (classify_polling_refresh_result r) timer flight broke failures (handled c) id
      calls

refresh_rejects-Shape : {s : Polling} → Shape s → Shape (refresh_rejects s)
unfolding refresh_rejects
refresh_rejects-Shape (asking c failures id calls le) = told _ _ _ _ le
refresh_rejects-Shape (told c failures id calls le) = told _ _ _ _ le
refresh_rejects-Shape (told_to_retry c h id calls) = told_to_retry _ _ _ _
refresh_rejects-Shape (broken c h id calls) = broken _ _ _ _
refresh_rejects-Shape (resting h failures d id calls le) = resting _ _ _ _ _ le
refresh_rejects-Shape (cooling h id calls) = cooling _ _ _
refresh_rejects-Shape (ended timer flight broke failures no_run id calls) = ended _ _ _ _ _ _ _
refresh_rejects-Shape (ended timer flight broke failures (handled c) id calls) = ended _ _ _ _ _ _ _
refresh_rejects-Shape (ended timer flight broke failures (waiting c) id calls) = ended _ _ _ _ _ _ _

refresh_finishes-Shape : {s : Polling} → Shape s → Shape (refresh_finishes s)
unfolding refresh_finishes
refresh_finishes-Shape (asking c failures id calls le) = asking _ _ _ _ le
refresh_finishes-Shape (told c failures id calls le) =
    let e : (c == c) ≡ true = ground arith in rw e (resting _ _ _ _ _ le)
refresh_finishes-Shape (told_to_retry c h id calls) =
    let e : (c == c) ≡ true = ground arith in rw e (resting _ _ _ _ _ (omega arith))
refresh_finishes-Shape (broken c h id calls) =
    let e : (c == c) ≡ true = ground arith in rw e (cooling _ _ _)
refresh_finishes-Shape (resting h failures d id calls le) = resting _ _ _ _ _ le
refresh_finishes-Shape (cooling h id calls) = cooling _ _ _
refresh_finishes-Shape (ended timer flight broke failures no_run id calls) = ended _ _ _ _ _ _ _
refresh_finishes-Shape (ended timer flight broke failures (waiting c) id calls) =
    ended _ _ _ _ _ _ _
refresh_finishes-Shape (ended timer flight true failures (handled c) id calls) = ended _ _ _ _ _ _ _
refresh_finishes-Shape (ended none flight false failures (handled c) id calls) = ended _ _ _ _ _ _ _
refresh_finishes-Shape (ended (some h) flight false failures (handled c) id calls) =
    ended _ _ _ _ _ _ _

module _ (k : ℕ) (t : Timer) (s : Polling) (only : s.timers ≡ t ∷ []) where
  pub timer_fires-here :
      (t.handle == k) ≡ true
      → timer_fires k s ≡ run_task t.task (record s { refresh_timer = none; timers = [] })
  unfolding timer_fires
  timer_fires-here e =
      ap (λ ts. fire_pending (find_timer k ts) k (record s { timers = ts })) only
      ∙ ap
          (λ (b : Bool).
            fire_pending (if b then some t.task else none) k (record s { timers = t ∷ [] }))
          e
      ∙ ap
          (λ (b : Bool).
            run_task t.task (record s { refresh_timer = none; timers = if b then [] else t ∷ [] }))
          e

  timer_fires-elsewhere : (t.handle == k) ≡ false → timer_fires k s ≡ s
  unfolding timer_fires
  timer_fires-elsewhere e =
      ap (λ ts. fire_pending (find_timer k ts) k s) only
      ∙ ap (λ (b : Bool). fire_pending (if b then some t.task else none) k s) e

  -- Only the one timer that there is fires.
  fires-Shape :
      Shape s
      → Shape (run_task t.task (record s { refresh_timer = none; timers = [] }))
      → Shape (timer_fires k s)
  fires-Shape v w = elim (Bool-cases (t.handle == k)) [
    | inl e ↦ subst Shape (sym (timer_fires-here e)) w
    | inr e ↦ subst Shape (sym (timer_fires-elsewhere e)) v
  ]

timer_fires-Shape : {s : Polling} (k : ℕ) → Shape s → Shape (timer_fires k s)
unfolding timer_fires
timer_fires-Shape k (asking c failures id calls le) = asking _ _ _ _ le
timer_fires-Shape k (told c failures id calls le) = told _ _ _ _ le
timer_fires-Shape k (told_to_retry c h id calls) =
    fires-Shape k _ _ refl (told_to_retry c h id calls) (told _ _ _ _ (omega arith))
timer_fires-Shape k (broken c h id calls) =
    fires-Shape k _ _ refl (broken c h id calls) (told _ _ _ _ (omega arith))
timer_fires-Shape k (resting h failures d id calls le) =
    fires-Shape k _ _ refl (resting h failures d id calls le) (asking _ _ _ _ le)
timer_fires-Shape k (cooling h id calls) =
    fires-Shape k _ _ refl (cooling h id calls) (asking _ _ _ _ (omega arith))
timer_fires-Shape k (ended timer flight broke failures run id calls) = ended _ _ _ _ _ _ _

Step-Shape : {s t : Polling} → Step s t → Shape s → Shape t
Step-Shape (settles result) v = refresh_settles-Shape result v
Step-Shape rejects v = refresh_rejects-Shape v
Step-Shape finishes v = refresh_finishes-Shape v
Step-Shape (fires h) v = timer_fires-Shape h v
Step-Shape disposes v = dispose_polling-Shape v

pub Reach-Shape : (s : Polling) → Reach s → Shape s
Reach-Shape s start = start_polling-Shape
Reach-Shape s (next {s = u} r step) = Step-Shape step (Reach-Shape u r)
