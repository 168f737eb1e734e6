-- ===== src/Process/Ring.antt =====
-- The ring that `process_switch` of kernel/process/process.c walks of processes: the processes between the
-- current one and the next that can run, as a list of addresses.
use bitch.Base.{
  ℕ, ◌≡◌, refl, ◌∙◌, sym, ap, ◌≢◌, ◌⊎◌, inl, inr, Bool, true, false, List, [], ◌∷◌, ◌==◌,
  if◌then◌else◌, ==→eq, eq→==, ne→==, leb, update, Bool-cases,
}
use bitch.Process.{State, run, exit, lock, wait, Process, Sched, try_lock, try_wake}

abbrev pub is_run : State → Bool
is_run run = true
is_run exit = false
is_run lock = false
is_run wait = false

abbrev pub is_exit : State → Bool
is_exit run = false
is_exit exit = true
is_exit lock = false
is_exit wait = false

-- The links from `a` through `bs` to `c`.
abbrev pub Chain : (ℕ → Process) → ℕ → List ℕ → ℕ → Type 0
Chain p a [] c = (p a).next ≡ c
Chain p a (b ∷ bs) c = ((p a).next ≡ b) × Chain p b bs c

abbrev pub Apart : ℕ → List ℕ → Type 0
Apart a [] = Unit
Apart a (b ∷ bs) = (a ≢ b) × Apart a bs

abbrev pub Distinct : List ℕ → Type 0
Distinct [] = Unit
Distinct (b ∷ bs) = Apart b bs × Distinct bs

-- None of `bs` can run.
abbrev pub Idle : (ℕ → Process) → List ℕ → Type 0
Idle p [] = Unit
Idle p (b ∷ bs) = (is_run (p b).state ≡ false) × Idle p bs

-- Those of `bs` that have not ended.
abbrev pub survivors : (ℕ → Process) → List ℕ → List ℕ
survivors p [] = []
survivors p (b ∷ bs) = if is_exit (p b).state then survivors p bs else b ∷ survivors p bs

-- What a switch leads to that starts at `last`, passes `bs` and finds `r` able to run.
pub record Switched (s : Sched) (prev last : ℕ) (bs : List ℕ) (r : ℕ) (t : Sched) : Type 0 where
  pub ring : Chain t.procs last (survivors s.procs bs) r
  pub frame : (a : ℕ) → a ≢ last → Apart a bs → (t.procs a).next ≡ (s.procs a).next
  pub states : (a : ℕ) → Apart a bs → (t.procs a).state ≡ (s.procs a).state
  pub current : t.current ≡ (if r == prev then s.current else r)
  pub esp0 : t.esp0 ≡ (if r == prev then s.esp0 else (s.procs r).stack_top)
  pub cr3 : s.cr3 ≡ (s.procs prev).pde → t.cr3 ≡ (s.procs r).pde
  pub cpu : t.cpu ≡ (if r == prev then s.cpu else (s.procs r).context)
  pub words : t.words ≡ s.words
  pub saved : (r ≢ prev) → (t.procs prev).context ≡ s.cpu

-- The rest of the state, which no step before the switch changes.
pub record SameElse (s t : Sched) : Type 0 where
  pub current : t.current ≡ s.current
  pub esp0 : t.esp0 ≡ s.esp0
  pub cr3 : t.cr3 ≡ s.cr3
  pub cpu : t.cpu ≡ s.cpu
  pub words : t.words ≡ s.words
  pub stack_top : (a : ℕ) → (t.procs a).stack_top ≡ (s.procs a).stack_top
  pub pde : (a : ℕ) → (t.procs a).pde ≡ (s.procs a).pde
  pub context : (a : ℕ) → (t.procs a).context ≡ (s.procs a).context

pub State-cases : (x : State) → (x ≡ run) ⊎ (x ≡ lock) ⊎ (x ≡ wait) ⊎ (x ≡ exit)
State-cases run = inl refl
State-cases lock = inr (inl refl)
State-cases wait = inr (inr (inl refl))
State-cases exit = inr (inr (inr refl))

-- A field of an updated array of processes.
pub field_update :
    {A : Type 0} (f : Process → A) (p : ℕ → Process) (a : ℕ) (x : Process) (j : ℕ)
    → f (update p a x j) ≡ (if j == a then f x else f (p j))
unfolding update
field_update f p a x j = elim (Bool-cases (j == a)) [ inl e ↦ rw e refl | inr e ↦ rw e refl ]

pub field_at :
    {A : Type 0} (f : Process → A) (p : ℕ → Process) (a : ℕ) (x : Process) (j : ℕ)
    → j ≡ a
    → f (update p a x j) ≡ f x
field_at f p a x j e = field_update f p a x j ∙ rw (eq→== j a e) refl

pub same_field :
    {A : Type 0} (f : Process → A) (p : ℕ → Process) (a : ℕ) (x : Process) (j : ℕ)
    → f x ≡ f (p a)
    → f (update p a x j) ≡ f (p j)
same_field f p a x j same = field_update f p a x j ∙ elim (Bool-cases (j == a)) [
  | inl e ↦ rw e (same ∙ ap (λ k. f (p k)) (sym (==→eq j a e)))
  | inr e ↦ rw e refl
]

-- Chains and their survivors depend only on the fields that they read.
pub frame_of_links :
    (p q : ℕ → Process) (x : ℕ) (a : ℕ) (bs : List ℕ) (c : ℕ)
    → ((j : ℕ) → j ≢ x → (q j).next ≡ (p j).next)
    → x ≢ a
    → Apart x bs
    → Chain p a bs c
    → Chain q a bs c
frame_of_links p q x a [] c same off apart link = same a (λ e. off (sym e)) ∙ link
frame_of_links p q x a (b ∷ bs) c same off (ne, apart) (link, links) =
    (same a (λ e. off (sym e)) ∙ link, frame_of_links p q x b bs c same ne apart links)

pub frame_of_rests :
    (p q : ℕ → Process) (x : ℕ) (bs : List ℕ)
    → ((j : ℕ) → j ≢ x → (q j).state ≡ (p j).state)
    → Apart x bs
    → Idle p bs
    → Idle q bs
frame_of_rests p q x [] same apart idle = tt
frame_of_rests p q x (b ∷ bs) same (ne, apart) (rests, idle) =
    (ap is_run (same b (λ e. ne (sym e))) ∙ rests, frame_of_rests p q x bs same apart idle)

pub survivors_frame :
    (p q : ℕ → Process) (x : ℕ) (bs : List ℕ)
    → ((j : ℕ) → j ≢ x → (q j).state ≡ (p j).state)
    → Apart x bs
    → survivors q bs ≡ survivors p bs
survivors_frame p q x [] same apart = refl
survivors_frame p q x (b ∷ bs) same (ne, apart) =
    rw (same b (λ e. ne (sym e)), survivors_frame p q x bs same apart) refl

-- A step at `b` that leaves it in the ring.
pub record Kept (s : Sched) (b : ℕ) (t : Sched) : Type 0 where
  pub rest : SameElse s t
  pub links : (a : ℕ) → (t.procs a).next ≡ (s.procs a).next
  pub states : (a : ℕ) → a ≢ b → (t.procs a).state ≡ (s.procs a).state

pub unchanged : (s : Sched) → SameElse s s
unchanged s = record {
  current = refl;
  esp0 = refl;
  cr3 = refl;
  cpu = refl;
  words = refl;
  stack_top = λ a. refl;
  pde = λ a. refl;
  context = λ a. refl;
}

kept : (s : Sched) (b : ℕ) → Kept s b s
kept s b = record { rest = unchanged s; links = λ a. refl; states = λ a ne. refl }

abbrev woken : Sched → ℕ → (ℕ → ℕ) → Sched
woken s b locks = record s {
  locks = locks;
  procs = update s.procs b (record (s.procs b) { state = run });
}

woken-Kept : (s : Sched) (b : ℕ) (locks : ℕ → ℕ) → Kept s b (woken s b locks)
woken-Kept s b locks =
    let up : Process = record (s.procs b) { state = run } in
    record {
      rest = record {
        current = refl;
        esp0 = refl;
        cr3 = refl;
        cpu = refl;
        words = refl;
        stack_top = λ a. same_field (λ x. x.stack_top) s.procs b up a refl;
        pde = λ a. same_field (λ x. x.pde) s.procs b up a refl;
        context = λ a. same_field (λ x. x.context) s.procs b up a refl;
      };
      links = λ a. same_field (λ x. x.next) s.procs b up a refl;
      states = λ a ne. field_update (λ x. x.state) s.procs b up a ∙ rw (ne→== a b ne) refl;
    }

pub try_lock-Kept : (s : Sched) (b : ℕ) → Kept s b (try_lock s b)
unfolding try_lock
try_lock-Kept s b = elim (Bool-cases (s.locks (s.procs b).lock_ptr == 0)) [
  | inl e ↦ rw e (woken-Kept s b (update s.locks (s.procs b).lock_ptr 1))
  | inr e ↦ rw e (kept s b)
]

pub try_wake-Kept : (s : Sched) (tick b : ℕ) → Kept s b (try_wake s tick b)
unfolding try_wake
try_wake-Kept s tick b = elim (Bool-cases (leb (s.procs b).tick tick)) [
  | inl e ↦ rw e (woken-Kept s b s.locks)
  | inr e ↦ rw e (kept s b)
]
