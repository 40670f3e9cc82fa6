-- ===== src/Server/Scheduler/Fits.antt =====
-- crates/snaca-server/src/scheduler.rs: `advance_next_fire` on a task whose interval stays in range.
use snaca.Base.{subst, ℕ, zero, suc, ◌+◌, ◌*◌, ◌≤◌, ◌<◌, Option, none, some, ◌≡◌, refl, ap, arith}
use snaca.State.Schedule.{ℤ, pos, negsuc, last_time, ScheduledTask}
use snaca.Server.Scheduler.{
  Chrono, max_hops, walk, bail, first_after, fires_at, next_slot, advance_next_fire,
}
use snaca.Server.Scheduler.Future.{first_after-returns, seconds_fit, time_fits}

-- The task's interval from `now`, where it has one, ends within the year 9999.
abbrev pub FitsSecs : ℕ → Option ℤ → Type 0
FitsSecs now (some (pos secs)) = now + secs * 1000000000 ≤ last_time
FitsSecs now _ = Unit

abbrev pub Fits : ℕ → ScheduledTask → Type 0
Fits now task = FitsSecs now task.interval_secs

some-lt : (now a b : ℕ) → now < a → some a ≡ some b → now < b
some-lt now a b h e = subst (λ x. now < x) (cc) h

module _ (chrono : Chrono) (now : ℕ) where
  bail-is_future :
      (interval at : ℕ) (o : Option ℕ)
      → 0 < interval
      → bail chrono now interval o ≡ some at
      → now < at
  bail-is_future interval at none h e = absurd (cc e)
  bail-is_future interval at (some next) h e = ground (arith, h, e)

  first_after-is_future :
      (interval first at : ℕ)
      → 0 < interval
      → first_after chrono now interval first ≡ some at
      → now < at
  unfolding first_after
  first_after-is_future interval first at h e =
      bail-is_future interval at (walk chrono now interval max_hops first) h e

  -- The call returns, and a time that it sets is in the future.
  pub record Returns (o : Option (Option ℕ)) : Type 0 where
    pub set : Option ℕ
    pub returns : o ≡ some set
    pub is_future : (at : ℕ) → set ≡ some at → now < at

  next_slot-Returns :
      (first : ℕ) (secs : Option ℤ) → FitsSecs now secs → Returns (next_slot chrono now first secs)
  next_slot-Returns first none h = record {
    set = none;
    returns = refl;
    is_future = λ at e. absurd (cc e);
  }
  next_slot-Returns first (some (negsuc n)) h = record {
    set = none;
    returns = refl;
    is_future = λ at e. absurd (cc e);
  }
  next_slot-Returns first (some (pos zero)) h = record {
    set = none;
    returns = refl;
    is_future = λ at e. absurd (cc e);
  }
  next_slot-Returns first (some (pos (suc n))) h =
      let found =
        first_after-returns chrono now (suc n * 1000000000) first (time_fits chrono now n h) in
      let later = first_after-is_future (suc n * 1000000000) first found.0 (omega arith) found.1 in
      rw (seconds_fit chrono now n h) (record {
        set = some found.0;
        returns = ap (fires_at chrono now) found.1;
        is_future = λ at e. some-lt now found.0 at later e;
      })

  pub advance_next_fire-Returns :
      (task : ScheduledTask) → Fits now task → Returns (advance_next_fire chrono task now)
  unfolding advance_next_fire
  advance_next_fire-Returns task h = next_slot-Returns task.next_fire_at task.interval_secs h
