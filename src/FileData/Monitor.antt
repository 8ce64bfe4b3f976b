-- ===== src/FileData/Monitor.antt =====
-- internal/filedata/archive_manager.go: the goroutine that watches the archive, `monitorForChanges`. What
-- it finds when it looks (the time, the file's information, the archive that can be read) is an input. The
-- archives that it passes to `updatedArchive` are listed. A timer of `scheduleRetry` hands its signal over
-- only if the goroutine is waiting at that moment: otherwise the signal is dropped.
pub mod Retries
use ld_relay.Base.{
  ℕ, ◌+◌, ◌-◌, Option, none, some, Bool, true, false, not, ◌||◌, List, [], ◌∷◌, ◌++◌, ltb, ◌==◌,
  if◌then◌else◌,
}
use ld_relay.Base.Assoc.{is_some}

pub record FileInfo : Type 0 where
  pub size : ℕ
  pub mod_time : ℕ

-- `none` is a file that is not there, and an archive that cannot be read.
pub record Look (A : Type 0) : Type 0 where
  pub now : ℕ
  pub file_info : Option FileInfo
  pub archive : Option A

-- `timers` counts those that have not fired; the last error is only known to be there or not.
pub record Monitor (A : Type 0) : Type 0 where
  pub last_file_info : FileInfo
  pub pending_retry : Bool
  pub first_retry_time : Option ℕ
  pub last_error : Bool
  pub timers : ℕ
  pub reloaded : List A

unfoldable pub file_may_have_changed : FileInfo → FileInfo → Bool
file_may_have_changed cur old = not (cur.mod_time == old.mod_time) || not (cur.size == old.size)

module _ {A : Type 0} where
  abbrev pub new_monitor : FileInfo → Monitor A
  new_monitor info = record {
    last_file_info = info;
    pending_retry = false;
    first_retry_time = none;
    last_error = false;
    timers = 0;
    reloaded = [];
  }

  unfoldable pub schedule_retry : ℕ → Monitor A → Monitor A
  schedule_retry now m = record m {
    pending_retry = true;
    first_retry_time = elim m.first_retry_time [ none ↦ some now | some t ↦ some t ];
    timers = m.timers + 1;
  }

  -- The file has changed.
  unfoldable pub reload : Look A → FileInfo → Monitor A → Monitor A
  unfolding schedule_retry
  reload look cur m =
      let m' = record m { first_retry_time = none; last_error = false; last_file_info = cur } in
      elim look.archive [
        | none ↦ schedule_retry look.now (record m' { last_error = true })
        | some a ↦ record m' { reloaded = m.reloaded ++ a ∷ [] }
      ]

  module _ (max_retry_duration : ℕ) where
    -- Another retry, up to the limit.
    unfoldable pub retry_again : ℕ → Monitor A → Monitor A
    unfolding schedule_retry
    retry_again now m = elim m.first_retry_time [
      | none ↦ schedule_retry now m
      | some t ↦ if ltb (now - t) max_retry_duration then schedule_retry now m else m
    ]

    unfoldable pub maybe_reload : Look A → Monitor A → Monitor A
    unfolding reload retry_again file_may_have_changed
    maybe_reload look m = elim look.file_info [
      | none ↦ retry_again look.now (record m { last_error = true })
      | some cur ↦
          if file_may_have_changed cur m.last_file_info
          then reload look cur m
          else if m.last_error
          then retry_again look.now m
          else m
    ]

    unfoldable pub on_file_event : Look A → Monitor A → Monitor A
    unfolding maybe_reload
    on_file_event look m = if m.pending_retry then m else maybe_reload look m

    unfoldable pub on_retry : Look A → Monitor A → Monitor A
    unfolding maybe_reload
    on_retry look m =
        if m.pending_retry then maybe_reload look (record m { pending_retry = false }) else m

-- A timer that fires takes its signal to the goroutine, or drops it.
pub data Happening (A : Type 0) : Type 0 where
  file_event timer_signal : Look A → Happening A
  signal_dropped : Happening A

module _ {A : Type 0} (max_retry_duration : ℕ) where
  unfoldable pub happen : Happening A → Monitor A → Monitor A
  unfolding on_file_event on_retry
  happen (file_event look) m = on_file_event max_retry_duration look m
  happen (timer_signal look) m =
      if m.timers == 0
      then m
      else on_retry max_retry_duration look (record m { timers = m.timers - 1 })
  happen signal_dropped m = record m { timers = m.timers - 1 }

  unfoldable pub happen_all : List (Happening A) → Monitor A → Monitor A
  unfolding happen
  happen_all [] m = m
  happen_all (h ∷ hs) m = happen_all hs (happen h m)
