-- ===== src/FileData/Monitor/Retries.antt =====
-- The retries of the archive's monitor.
use ld_relay.Base.{
  ℕ, ◌-◌, ◌++◌, some, inl, inr, Bool-cases, ◌≡◌, refl, ap, ◌∙◌, Bool, true, false, List, [], ◌∷◌,
  if◌then◌else◌, arith,
}
use ld_relay.FileData.Monitor.{
  file_may_have_changed, FileInfo, Look, Monitor, new_monitor, schedule_retry, reload, retry_again,
  maybe_reload, on_file_event, on_retry, Happening, file_event, timer_signal, signal_dropped,
  happen, happen_all,
}

-- Is no signal dropped?
abbrev pub undropped : {A : Type 0} → List (Happening A) → Bool
undropped [] = true
undropped (signal_dropped ∷ hs) = false
undropped (_ ∷ hs) = undropped hs

module _ {A : Type 0} (max_retry_duration : ℕ) where
  -- There is a timer exactly while a retry is pending, and never a second one.
  abbrev OneTimer : Monitor A → Type 0
  OneTimer m = m.timers ≡ (if m.pending_retry then 1 else 0)

  maybe_reload-OneTimer :
      (look : Look A) (m : Monitor A)
      → m.pending_retry ≡ false
      → m.timers ≡ 0
      → OneTimer (maybe_reload max_retry_duration look m)
  unfolding maybe_reload reload retry_again schedule_retry
  maybe_reload-OneTimer look m p t = ground arith

  happen-OneTimer :
      (h : Happening A) (m : Monitor A)
      → undropped (h ∷ []) ≡ true
      → OneTimer m
      → OneTimer (happen max_retry_duration h m)
  unfolding happen on_file_event on_retry
  happen-OneTimer (file_event look) m u o = ground (arith, maybe_reload-OneTimer look m)
  happen-OneTimer (timer_signal look) m u o =
      let idle : Monitor A = record m { timers = m.timers - 1; pending_retry = false } in
      ground (arith, maybe_reload-OneTimer look idle)
  happen-OneTimer signal_dropped m u o = cc

  happen_all-OneTimer :
      (hs : List (Happening A)) (m : Monitor A)
      → undropped hs ≡ true
      → OneTimer m
      → OneTimer (happen_all max_retry_duration hs m)
  unfolding happen_all
  happen_all-OneTimer [] m u o = o
  happen_all-OneTimer (file_event look ∷ hs) m u o =
      happen_all-OneTimer hs (happen max_retry_duration (file_event look) m) u
        (happen-OneTimer (file_event look) m refl o)
  happen_all-OneTimer (timer_signal look ∷ hs) m u o =
      happen_all-OneTimer hs (happen max_retry_duration (timer_signal look) m) u
        (happen-OneTimer (timer_signal look) m refl o)
  happen_all-OneTimer (signal_dropped ∷ hs) m u o = cc

  monitor-OneTimer :
      (hs : List (Happening A)) (info : FileInfo)
      → undropped hs ≡ true
      → OneTimer (happen_all max_retry_duration hs (new_monitor info))
  monitor-OneTimer hs info u = happen_all-OneTimer hs (new_monitor info) u refl

  signal-reloads :
      (cur : FileInfo) (now : ℕ) (a : A) (m : Monitor A)
      → OneTimer m
      → file_may_have_changed cur m.last_file_info ≡ true
      → let look : Look A = record { now = now; file_info = some cur; archive = some a } in
        let m' = happen max_retry_duration (timer_signal look) m in
        (m'.reloaded ≡ (if m.pending_retry then m.reloaded ++ a ∷ [] else m.reloaded))
        × ((m'.pending_retry ≡ false) × (m'.timers ≡ 0))
  unfolding happen on_retry maybe_reload reload
  signal-reloads cur now a m o c = elim (Bool-cases m.pending_retry) [
    | inl p ↦ ground (arith, p, o, c)
    | inr p ↦ ground (arith, p, o)
  ]

  -- After anything by which no signal has been dropped, when a timer's signal comes and the file has changed
  -- and can be read: if a retry was pending, then the archive is reloaded, nothing is pending and no timer is
  -- left; if none was, then no timer was there to fire, and nothing is reloaded.
  pub pending_retry_reloads :
      (hs : List (Happening A)) (info cur : FileInfo) (now : ℕ) (a : A)
      → undropped hs ≡ true
      → file_may_have_changed cur
          (happen_all max_retry_duration hs (new_monitor info)).last_file_info
        ≡ true
      → let m = happen_all max_retry_duration hs (new_monitor info) in
        let look : Look A = record { now = now; file_info = some cur; archive = some a } in
        let m' = happen max_retry_duration (timer_signal look) m in
        (m'.reloaded ≡ (if m.pending_retry then m.reloaded ++ a ∷ [] else m.reloaded))
        × ((m'.pending_retry ≡ false) × (m'.timers ≡ 0))
        × (m.timers ≡ (if m.pending_retry then 1 else 0))
  pending_retry_reloads hs info cur now a u c =
      let m = happen_all max_retry_duration hs (new_monitor info) in
      let one = monitor-OneTimer hs info u in
      let (reloads, idle) = signal-reloads cur now a m one c in (reloads, idle, one)

  -- A monitor that waits for a signal that was dropped.
  abbrev Stuck : List A → Monitor A → Type 0
  Stuck loaded m = (m.pending_retry ≡ true) × (m.timers ≡ 0) × (m.reloaded ≡ loaded)

  happen-Stuck :
      (h : Happening A) (loaded : List A) (m : Monitor A)
      → Stuck loaded m
      → Stuck loaded (happen max_retry_duration h m)
  unfolding happen on_file_event
  happen-Stuck (file_event look) loaded m (p, t, r) = rw (happen, on_file_event, p) (refl, t, r)
  happen-Stuck (timer_signal look) loaded m (p, t, r) = ground arith
  happen-Stuck signal_dropped loaded m (p, t, r) = (p, ground arith, r)

  happen_all-Stuck :
      (hs : List (Happening A)) (loaded : List A) (m : Monitor A)
      → Stuck loaded m
      → Stuck loaded (happen_all max_retry_duration hs m)
  unfolding happen_all
  happen_all-Stuck [] loaded m h = h
  happen_all-Stuck (x ∷ hs) loaded m h =
      happen_all-Stuck hs loaded (happen max_retry_duration x m) (happen-Stuck x loaded m h)

  -- When the signal of a pending retry is dropped, the monitor never reloads the archive again, whatever
  -- happens to the file: it ignores the events while it waits for the retry.
  pub dropped_signal_ends :
      (hs hs' : List (Happening A)) (info : FileInfo)
      → undropped hs ≡ true
      → (happen_all max_retry_duration hs (new_monitor info)).pending_retry ≡ true
      → let m = happen_all max_retry_duration hs (new_monitor info) in
        (happen_all max_retry_duration hs' (happen max_retry_duration signal_dropped m)).reloaded
        ≡ m.reloaded
  unfolding happen
  dropped_signal_ends hs hs' info u p =
      let m = happen_all max_retry_duration hs (new_monitor info) in
      let one : m.timers ≡ 1 = monitor-OneTimer hs info u ∙ ap (λ b. if b then 1 else 0) p in
      (happen_all-Stuck hs' m.reloaded (happen max_retry_duration signal_dropped m)
        (p, omega (arith, one), refl)).2
