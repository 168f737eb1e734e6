-- ===== src/Process/Hang.antt =====
-- Where `process_switch` of kernel/process/process.c does not return, and what follows for
-- kernel/process/wait.c.
use bitch.Base.{
  ℕ, zero, suc, ◌+◌, ◌<◌, ◌%◌, ◌^◌, ◌≡◌, refl, ◌∙◌, ◌≢◌, ◌⊎◌, inl, inr, true, none, arith, ne→==,
}
use bitch.Process.{
  lock, wait, Process, Sched, try_lock, try_wake, switch_loop, process_switch, irq0_handler,
  process_wait,
}
use bitch.Process.Ring.{field_at}

-- A process that waits for a lock that is held, or for a time that has not come.
abbrev pub Blocked : Sched → (tick : ℕ) → ℕ → Type 0
Blocked s tick a =
    (((s.procs a).state ≡ lock) × (s.locks (s.procs a).lock_ptr ≢ 0))
    ⊎ (((s.procs a).state ≡ wait) × tick < (s.procs a).tick)

module _ (s : Sched) (tick : ℕ) (ring : ℕ → Type 0)
    (closed : (a : ℕ) → ring a → ring (s.procs a).next)
    (blocked : (a : ℕ) → ring a → Blocked s tick a) where
  switch_loop_hangs : (fuel prev last : ℕ) → ring last → switch_loop fuel s tick prev last ≡ none
  unfolding switch_loop
  switch_loop_hangs zero prev last inside = refl
  switch_loop_hangs (suc fuel) prev last inside =
      let next : ℕ = (s.procs last).next in
      elim (blocked next (closed last inside)) [
        | inl (e, held) ↦
            let same : try_lock s next ≡ s = unfold try_lock in rw (ne→== _ 0 held) refl in
            rw (switch_loop, e, same) (switch_loop_hangs fuel prev next (closed last inside))
        | inr (e, early) ↦
            let same : try_wake s tick next ≡ s = unfold try_wake in ground arith in
            rw (switch_loop, e, same) (switch_loop_hangs fuel prev next (closed last inside))
      ]

  -- On a ring of which every process waits for a held lock or for a later time, `process_switch`
  -- never returns, however many rounds its loop takes.
  pub process_switch_hangs : (fuel : ℕ) → ring s.current → process_switch fuel s tick ≡ none
  process_switch_hangs fuel inside =
      unfold process_switch in switch_loop_hangs fuel s.current s.current inside

-- While the timer's handler is registered, a process that is alone in the ring never returns from
-- `process_wait` with a positive time that does not carry the ticks past 2 ^ 32.
process_wait_alone :
    (s : Sched) (fuel n : ℕ)
    → s.handled ≡ true
    → (s.procs s.current).next ≡ s.current
    → 0 < n
    → s.ticks + n < 2 ^ 32
    → process_wait fuel s n ≡ none
unfolding process_wait irq0_handler
process_wait_alone s fuel n handled alone pos small =
    let up : Process = record (s.procs s.current) { tick = (s.ticks + n) % 2 ^ 32; state = wait } in
    rw handled (
      process_switch_hangs _ s.ticks (λ a. a ≡ s.current)
        (λ a e. field_at (λ x. x.next) s.procs s.current up a e ∙ alone)
        (λ a e. inr (
          field_at (λ x. x.state) s.procs s.current up a e,
          omega (arith, field_at (λ x. x.tick) s.procs s.current up a e),
        ))
        fuel refl)
