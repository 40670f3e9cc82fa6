-- ===== src/Server/Scheduler/Future.antt =====
-- crates/snaca-server/src/scheduler.rs: `advance_next_fire` finds the next slot in the future.
use snaca.Base.{
  ℕ, zero, suc, ◌+◌, ◌*◌, max, ◌≤◌, ◌<◌, true, Option, some, ◌≡◌, ◌∙◌, refl, ap, leb, arith, inl,
  inr, Bool-cases, leb→le, leb-false→lt,
}
use snaca.State.Schedule.{ℤ, pos, last_time, ScheduledTask}
use snaca.Server.Scheduler.{
  Chrono, max_hops, walk, bail, first_after, fires_at, next_slot, advance_next_fire,
}

-- A slot of the series `first + k * interval`.
abbrev pub IsSlot : ℕ → ℕ → ℕ → Type 0
IsSlot first interval next = (k : ℕ) × (next ≡ first + k * interval)

-- The first slot of the series after `now`: no slot before it is after `now`.
pub record IsNextSlot (now first interval next : ℕ) : Type 0 where
  pub is_future : now < next
  pub is_slot : IsSlot first interval next
  pub is_first : next ≤ max first (now + interval)

-- What the loop returns from `start` with these hops, and where it is.
record Walked (now first interval start hops : ℕ) (o : Option ℕ) : Type 0 where
  next : ℕ
  returns : o ≡ some next
  is_slot : IsSlot first interval next
  is_near : next ≤ max first (now + interval)
  is_ahead : now < start + hops * interval → now < next

module _ (chrono : Chrono) (now : ℕ) where
  walk-Walked :
      (interval first hops next k : ℕ)
      → now + interval ≤ chrono.max_time
      → next ≡ first + k * interval
      → next ≤ max first (now + interval)
      → Walked now first interval next hops (walk chrono now interval hops next)
  unfolding walk
  walk-Walked interval first zero next k fits slot near = record {
    next = next;
    returns = refl;
    is_slot = (k, slot);
    is_near = near;
    is_ahead = λ ahead. omega (arith, ahead);
  }
  walk-Walked interval first (suc hops) next k fits slot near = elim (Bool-cases (leb next now)) [
    | inl due ↦
        let le = leb→le next now due in
        let later =
          walk-Walked interval first hops (next + interval) (suc k) fits (omega (arith, slot))
            (omega (arith, le)) in
        let within : leb (next + interval) chrono.max_time ≡ true = ground (arith, le, fits) in
        rw (due, within)
          (record {
            next = later.next;
            returns = later.returns;
            is_slot = later.is_slot;
            is_near = later.is_near;
            is_ahead = λ ahead. later.is_ahead (omega (arith, ahead));
          })
    | inr ahead_now ↦ rw ahead_now (record {
      next = next;
      returns = refl;
      is_slot = (k, slot);
      is_near = near;
      is_ahead = λ ahead. leb-false→lt next now ahead_now;
    })
  ]

  bail-kept :
      (interval next : ℕ) (o : Option ℕ)
      → o ≡ some next
      → now < next
      → bail chrono now interval o ≡ some next
  bail-kept interval next o e h = rw e (ground (arith, h))

  bail-returns :
      (interval next : ℕ) (o : Option ℕ)
      → o ≡ some next
      → now + interval ≤ chrono.max_time
      → (at : ℕ) × (bail chrono now interval o ≡ some at)
  bail-returns interval next o e fits = rw e (elim (Bool-cases (leb next now)) [
    | inl due ↦
        let within : leb (now + interval) chrono.max_time ≡ true = ground (arith, fits) in
        rw (due, within) (now + interval, refl)
    | inr ahead ↦ rw ahead (next, refl)
  ])

  loop_from :
      (interval first : ℕ)
      → now + interval ≤ chrono.max_time
      → Walked now first interval first max_hops (walk chrono now interval max_hops first)
  loop_from interval first fits =
      walk-Walked interval first max_hops first 0 fits (omega arith) (omega arith)

  pub first_after-returns :
      (interval first : ℕ)
      → now + interval ≤ chrono.max_time
      → (at : ℕ) × (first_after chrono now interval first ≡ some at)
  unfolding first_after
  first_after-returns interval first fits =
      let found = loop_from interval first fits in
      bail-returns interval found.next (walk chrono now interval max_hops first) found.returns fits

  first_after-IsNextSlot :
      (interval first : ℕ)
      → now + interval ≤ chrono.max_time
      → now < first + max_hops * interval
      → (next : ℕ) × (first_after chrono now interval first ≡ some next)
        × IsNextSlot now first interval next
  unfolding first_after
  first_after-IsNextSlot interval first fits ahead =
      let found = loop_from interval first fits in
      let later = found.is_ahead ahead in
      (
        found.next,
        bail-kept interval found.next (walk chrono now interval max_hops first) found.returns later,
        record { is_future = later; is_slot = found.is_slot; is_first = found.is_near },
      )

  pub seconds_fit :
      (n : ℕ) → now + suc n * 1000000000 ≤ last_time → leb (suc n) chrono.max_seconds ≡ true
  seconds_fit n h = ground (arith, h, chrono.last_time-max_seconds)

  pub time_fits :
      (n : ℕ) → now + suc n * 1000000000 ≤ last_time → now + suc n * 1000000000 ≤ chrono.max_time
  time_fits n h = omega (arith, h, chrono.last_time-max_time)

  next_slot-recurring :
      (first n : ℕ) (secs : Option ℤ)
      → secs ≡ some (pos (suc n))
      → now + suc n * 1000000000 ≤ last_time
      → next_slot chrono now first secs
        ≡ fires_at chrono now (first_after chrono now (suc n * 1000000000) first)
  next_slot-recurring first n secs h fits = rw (h, seconds_fit n fits) refl

-- A recurring task that is less than 100000 intervals behind, and whose interval from now ends within
-- the year 9999, fires next at the first time of its series after `now`: missed slots are skipped, none
-- after `now` is, and the arithmetic does not panic.
pub advance_next_fire-IsNextSlot :
    (chrono : Chrono) (task : ScheduledTask) (now n : ℕ)
    → task.interval_secs ≡ some (pos (suc n))
    → now + suc n * 1000000000 ≤ last_time
    → now < task.next_fire_at + max_hops * (suc n * 1000000000)
    → (next : ℕ) × (advance_next_fire chrono task now ≡ some (some next))
      × IsNextSlot now task.next_fire_at (suc n * 1000000000) next
unfolding advance_next_fire
advance_next_fire-IsNextSlot chrono task now n h fits ahead =
    let found =
      first_after-IsNextSlot chrono now (suc n * 1000000000) task.next_fire_at
        (time_fits chrono now n fits) ahead in
    (
      found.0,
      next_slot-recurring chrono now task.next_fire_at n task.interval_secs h fits
          ∙ ap (fires_at chrono now) found.1,
      found.2,
    )
