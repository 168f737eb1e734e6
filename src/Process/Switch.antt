-- ===== src/Process/Switch.antt =====
-- `process_switch` of kernel/process/process.c, where some process of the ring can run.
use bitch.Base.{
  ℕ, zero, suc, ◌<◌, ◌≡◌, refl, ◌∙◌, sym, ap, ◌≢◌, inl, inr, Bool, true, false, some, List, [], ◌∷◌,
  length, arith, ◌==◌, if◌then◌else◌, ==→eq, eq→==, ne→==, Bool-cases,
}
use bitch.Process.{
  run, Process, Sched, switch_to, try_lock, try_wake, remove_next, switch_loop, process_switch,
}
use bitch.Process.Ring.{
  is_run, is_exit, Chain, Apart, Distinct, Idle, Switched, SameElse, Kept, State-cases,
  field_update, same_field, frame_of_links, frame_of_rests, survivors_frame, try_lock-Kept,
  try_wake-Kept,
}

-- The switch itself.
switch_at_once :
    (s : Sched) (prev last r : ℕ)
    → (s.procs last).next ≡ r
    → Switched s prev last [] r (switch_to s prev r)
unfolding switch_to
switch_at_once s prev last r link = elim (Bool-cases (r == prev)) [
  | inl e ↦
      let same : r ≡ prev = ==→eq r prev e in
      rw e (record {
        ring = link;
        frame = λ a _ _. refl;
        states = λ a _. refl;
        current = rw e refl;
        esp0 = rw e refl;
        cr3 = λ loaded. loaded ∙ ap (λ k. (s.procs k).pde) (sym same);
        cpu = rw e refl;
        words = refl;
        saved = λ ne. absurd (ne same);
      })
  | inr e ↦
      let up : Process = record (s.procs prev) { context = s.cpu } in
      rw e (record {
        ring = same_field (λ x. x.next) s.procs prev up last refl ∙ link;
        frame = λ a _ _. same_field (λ x. x.next) s.procs prev up a refl;
        states = λ a _. same_field (λ x. x.state) s.procs prev up a refl;
        current = rw e refl;
        esp0 = rw e refl;
        cr3 = λ loaded. elim (Bool-cases ((s.procs prev).pde == (s.procs r).pde)) [
          | inl p ↦ rw p (loaded ∙ ==→eq (s.procs prev).pde (s.procs r).pde p)
          | inr p ↦ rw p refl
        ];
        cpu = rw e refl;
        words = refl;
        saved = λ ne.
            field_update (λ x. x.context) s.procs prev up prev ∙ rw (eq→== prev prev refl) refl;
      })
]

-- What is left of a state after a step, seen from the state before it.
module _ (s s' : Sched) (prev r : ℕ) (same : SameElse s s') where
  pick_same :
      {A : Type 0} (b : Bool) {x x' y y' z : A}
      → x' ≡ x
      → y' ≡ y
      → z ≡ (if b then x' else y')
      → z ≡ (if b then x else y)
  pick_same b xs ys e = rw (sym xs, sym ys) e

  -- A process that stays in the ring.
  step_in_ring :
      (last b : ℕ) (bs : List ℕ) (t : Sched)
      → Kept s b s'
      → (s.procs last).next ≡ b
      → is_exit (s.procs b).state ≡ false
      → last ≢ b
      → Apart last bs
      → Apart b bs
      → Switched s' prev b bs r t
      → Switched s prev last (b ∷ bs) r t
  step_in_ring last b bs t k link stays ne apart other w = record {
    ring = rw stays (
      w.frame last ne apart ∙ k.links last ∙ link,
      rw (sym (survivors_frame s.procs s'.procs b bs k.states other)) w.ring,
    );
    frame = λ a off (ne', apart'). w.frame a ne' apart' ∙ k.links a;
    states = λ a (ne', apart'). w.states a apart' ∙ k.states a ne';
    current = pick_same (r == prev) same.current refl w.current;
    esp0 = pick_same (r == prev) same.esp0 (same.stack_top r) w.esp0;
    cr3 = λ loaded. w.cr3 (same.cr3 ∙ loaded ∙ sym (same.pde prev)) ∙ same.pde r;
    cpu = pick_same (r == prev) same.cpu (same.context r) w.cpu;
    words = w.words ∙ same.words;
    saved = λ ne'. w.saved ne' ∙ same.cpu;
  }

  -- A process that leaves it.
  step_out_of_ring :
      (last b : ℕ) (bs : List ℕ) (t : Sched)
      → ((a : ℕ) → a ≢ last → (s'.procs a).next ≡ (s.procs a).next)
      → ((a : ℕ) → (s'.procs a).state ≡ (s.procs a).state)
      → is_exit (s.procs b).state ≡ true
      → Apart b bs
      → Switched s' prev last bs r t
      → Switched s prev last (b ∷ bs) r t
  step_out_of_ring last b bs t links states leaves other w = record {
    ring =
        rw leaves (rw (sym (survivors_frame s.procs s'.procs b bs (λ a _. states a) other)) w.ring);
    frame = λ a off (ne', apart'). w.frame a off apart' ∙ links a off;
    states = λ a (ne', apart'). w.states a apart' ∙ states a;
    current = pick_same (r == prev) same.current refl w.current;
    esp0 = pick_same (r == prev) same.esp0 (same.stack_top r) w.esp0;
    cr3 = λ loaded. w.cr3 (same.cr3 ∙ loaded ∙ sym (same.pde prev)) ∙ same.pde r;
    cpu = pick_same (r == prev) same.cpu (same.context r) w.cpu;
    words = w.words ∙ same.words;
    saved = λ ne'. w.saved ne' ∙ same.cpu;
  }

-- The removal of a process.
removed_else : (s : Sched) (last b : ℕ) → SameElse s (remove_next s last b)
unfolding remove_next
removed_else s last b =
    let up : Process = record (s.procs last) { next = (s.procs b).next } in
    record {
      current = refl;
      esp0 = refl;
      cr3 = refl;
      cpu = refl;
      words = refl;
      stack_top = λ a. same_field (λ x. x.stack_top) s.procs last up a refl;
      pde = λ a. same_field (λ x. x.pde) s.procs last up a refl;
      context = λ a. same_field (λ x. x.context) s.procs last up a refl;
    }

removed_states :
    (s : Sched) (last b a : ℕ) → ((remove_next s last b).procs a).state ≡ (s.procs a).state
unfolding remove_next
removed_states s last b a =
    same_field (λ x. x.state) s.procs last (record (s.procs last) { next = (s.procs b).next }) a
      refl

removed_links :
    (s : Sched) (last b a : ℕ) → a ≢ last → ((remove_next s last b).procs a).next ≡ (s.procs a).next
unfolding remove_next
removed_links s last b a ne =
    field_update (λ x. x.next) s.procs last (record (s.procs last) { next = (s.procs b).next }) a
    ∙ rw (ne→== a last ne) refl

removed_link :
    (s : Sched) (last b : ℕ) → ((remove_next s last b).procs last).next ≡ (s.procs b).next
unfolding remove_next
removed_link s last b =
    field_update (λ x. x.next) s.procs last (record (s.procs last) { next = (s.procs b).next }) last
    ∙ rw (eq→== last last refl) refl

-- The ring behind a process that is removed.
removed-Chain :
    (s : Sched) (last b : ℕ) (bs : List ℕ) (r : ℕ)
    → Apart last bs
    → Chain s.procs b bs r
    → Chain (remove_next s last b).procs last bs r
removed-Chain s last b [] r apart link = removed_link s last b ∙ link
removed-Chain s last b (c ∷ cs) r (ne, apart) (link, links) = (
  removed_link s last b ∙ link,
  frame_of_links s.procs (remove_next s last b).procs last c cs r (removed_links s last b) ne apart
      links,
)

-- The loop from `last` on, with more rounds than the processes it passes.
abbrev Switches : ℕ → Sched → (tick prev last : ℕ) → List ℕ → ℕ → Type 0
Switches fuel s tick prev last bs r =
    (t : Sched) × (switch_loop fuel s tick prev last ≡ some t) × Switched s prev last bs r t

links_agree :
    (p q : ℕ → Process) (a : ℕ) (bs : List ℕ) (c : ℕ)
    → ((j : ℕ) → (q j).next ≡ (p j).next)
    → Chain p a bs c
    → Chain q a bs c
links_agree p q a [] c same link = same a ∙ link
links_agree p q a (b ∷ bs) c same (link, links) = (same a ∙ link, links_agree p q b bs c same links)

-- A process that can run is not one that cannot.
runs_elsewhere :
    (s : Sched) (r b : ℕ) → (s.procs r).state ≡ run → is_run (s.procs b).state ≡ false → r ≢ b
runs_elsewhere s r b runs rests e =
    let both : true ≡ false = sym (ap is_run runs) ∙ ap (λ k. is_run (s.procs k).state) e ∙ rests in
    ground arith

switch_loop_lem :
    (bs : List ℕ) (fuel : ℕ) (s : Sched) (tick prev last r : ℕ)
    → length bs < fuel
    → Chain s.procs last bs r
    → (s.procs r).state ≡ run
    → Idle s.procs bs
    → Apart last bs
    → Distinct bs
    → Switches fuel s tick prev last bs r
unfolding switch_loop
switch_loop_lem bs zero s tick prev last r more _ _ _ _ _ = absurd (omega (arith, more))
switch_loop_lem [] (suc fuel) s tick prev last r more link runs idle apart distinct =
    (switch_to s prev r, rw (switch_loop, link, runs, link) refl, switch_at_once s prev last r link)
switch_loop_lem (b ∷ bs) (suc fuel) s tick prev last r more (link, links) runs (rests, idle)
      (ne, apart) (other, distinct) =
    let go_kept : (s' : Sched)
        → Kept s b s'
        → is_exit (s.procs b).state ≡ false
        → (t : Sched) × (switch_loop fuel s' tick prev b ≡ some t)
          × Switched s prev last (b ∷ bs) r t =
      λ s' k stays.
        let (t, e, w) =
          switch_loop_lem bs fuel s' tick prev b r (omega (arith, more))
            (links_agree s.procs s'.procs b bs r k.links links)
            (k.states r (runs_elsewhere s r b runs rests) ∙ runs)
            (frame_of_rests s.procs s'.procs b bs k.states other idle) other distinct in
        (t, e, step_in_ring s s' prev r k.rest last b bs t k link stays ne apart other w) in
    elim (State-cases (s.procs b).state) [
      | inl e ↦ let both : true ≡ false = sym (ap is_run e) ∙ rests in ground arith
      | inr (inl e) ↦
          rw (switch_loop, link, e, link)
            (go_kept (try_lock s b) (try_lock-Kept s b) (ap is_exit e))
      | inr (inr (inl e)) ↦
          rw (switch_loop, link, e, link)
            (go_kept (try_wake s tick b) (try_wake-Kept s tick b) (ap is_exit e))
      | inr (inr (inr e)) ↦
          let states = removed_states s last b in
          let (t, went, w) =
            switch_loop_lem bs fuel (remove_next s last b) tick prev last r (omega (arith, more))
              (removed-Chain s last b bs r apart links) (states r ∙ runs)
              (frame_of_rests s.procs (remove_next s last b).procs b bs (λ j _. states j) other
                idle)
              apart distinct in
          rw (switch_loop, link, e, link)
            (
              t,
              went,
              step_out_of_ring s (remove_next s last b) prev r (removed_else s last b) last b bs t
                  (removed_links s last b) states (ap is_exit e) other w,
            )
    ]

-- On a ring of distinct processes, from the current one through `bs`, none of which can run, to a
-- process `r` that can: with more rounds than `bs` has processes, `process_switch` returns. The
-- current process is then `r`, and the processes of `bs` that have ended, and no other, left the ring.
-- If `r` is not the process that was current, its stack and registers are loaded and those of that
-- process saved; if that process's page directory was loaded, `r`'s is.
pub process_switch_lem :
    (bs : List ℕ) (fuel : ℕ) (s : Sched) (tick r : ℕ)
    → length bs < fuel
    → Chain s.procs s.current bs r
    → (s.procs r).state ≡ run
    → Idle s.procs bs
    → Distinct (s.current ∷ bs)
    → (t : Sched) × (process_switch fuel s tick ≡ some t) × Switched s s.current s.current bs r t
unfolding process_switch
process_switch_lem bs fuel s tick r more links runs idle (apart, distinct) =
    switch_loop_lem bs fuel s tick s.current s.current r more links runs idle apart distinct
