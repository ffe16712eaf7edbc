-- ===== src/Manifest/Mutex/Refines.antt =====
-- The chain of promises is a ticket lock.
use sovereign_jedi.Prelude.{
  ℕ, ◌+◌, ◌-◌, ◌<◌, ◌≤◌, ◌≡◌, refl, sym, ◌∙◌, ◌⊎◌, inl, inr, true, false, some, leb, ◌==◌,
  if◌then◌else◌, ◌&&◌, arith, Bool-cases,
}
use sovereign_jedi.Manifest.Mutex.{
  Phase, absent, running, returned, awaiting, Mutex, create_mutex, set_call, run_exclusive, resume,
  release, Step, calls_in, resumes, settles, Steps, here, next,
}
use sovereign_jedi.Manifest.Mutex.Lock.{
  Lock, free_lock, Grant, takes, acquires, frees, Grants, here as same, next as after,
}

-- where the call with ticket n is
unfoldable pub phase_of : Lock → ℕ → Phase
phase_of a n =
    if n == 0
    then absent
    else if leb n a.served
    then returned
    else if a.busy && n == a.served + 1
    then running
    else if leb n a.issued
    then awaiting (n - 1)
    else absent

-- the ticket lock that a mutex is
pub record Represents (a : Lock) (m : Mutex) : Type 0 where
  pub tail : m.tail ≡ a.issued
  pub made : m.made ≡ a.issued + 1
  pub resolved : (n : ℕ) → m.resolved n ≡ leb n a.served
  pub calls : (n : ℕ) → m.calls n ≡ phase_of a n
  pub room : (if a.busy then a.served + 1 else a.served) ≤ a.issued

Represents-create_mutex : Represents free_lock create_mutex
unfolding create_mutex free_lock phase_of
Represents-create_mutex = record {
  tail = refl;
  made = refl;
  resolved = λ n. ground arith;
  calls = λ n. ground arith;
  room = omega arith;
}

Represents-run_exclusive :
    (a : Lock) (m : Mutex)
    → Represents a m
    → Represents (record a { issued = a.issued + 1 }) (run_exclusive m)
unfolding run_exclusive set_call phase_of
Represents-run_exclusive a m r = record {
  tail = ground (arith, r.made);
  made = ground (arith, r.made);
  resolved = λ n. r.resolved n;
  calls = λ n. ground (arith, r.calls n, r.made, r.tail);
  room = ground (arith, r.room);
}

phase_of-running :
    (a : Lock) (n : ℕ) → phase_of a n ≡ running → (a.busy ≡ true) × (n ≡ a.served + 1)
unfolding phase_of
phase_of-running a n h = ground arith

phase_of-awaiting :
    (a : Lock) (n p : ℕ)
    → phase_of a n ≡ awaiting p
    → (p + 1 ≡ n) × (a.served < n) × (n ≤ a.issued) × ((a.busy ≡ true) → n ≡ a.served + 1 → ⊥)
unfolding phase_of
phase_of-awaiting a n p h = (ground arith, ground arith, ground arith, λ b e. ground arith)

resume-some :
    (k : ℕ) (m m' : Mutex) (phase : Phase)
    → m.calls k ≡ phase
    → resume k m ≡ some m'
    → (p : ℕ) × (m.calls k ≡ awaiting p) × (m.resolved p ≡ true) × (m' ≡ set_call k running m)
unfolding resume
resume-some k m m' absent at h = absurd (ground arith)
resume-some k m m' running at h = absurd (ground arith)
resume-some k m m' returned at h = absurd (ground arith)
resume-some k m m' (awaiting p) at h = (p, at, ground arith, ground arith)

phase_of-busy : (a : Lock) → a.busy ≡ true → phase_of a (a.served + 1) ≡ running
unfolding phase_of
phase_of-busy a h = ground arith

phase_of-next :
    (a : Lock)
    → a.busy ≡ false
    → a.served < a.issued
    → phase_of a (a.served + 1) ≡ awaiting a.served
unfolding phase_of
phase_of-next a idle h = ground arith

resume-ready :
    (k p : ℕ) (m : Mutex)
    → m.calls k ≡ awaiting p
    → m.resolved p ≡ true
    → resume k m ≡ some (set_call k running m)
unfolding resume
resume-ready k p m at done = rw (resume, at, done) refl

-- The call that resumes is the next in line, and nobody holds the lock.
Represents-resume :
    (a : Lock) (m m' : Mutex) (k : ℕ)
    → Represents a m
    → resume k m ≡ some m'
    → (k ≡ a.served + 1)
      × (a.busy ≡ false)
      × (a.served < a.issued)
      × Represents (record a { busy = true }) m'
unfolding set_call phase_of
Represents-resume a m m' k r h =
    let (p, at, done, made) = resume-some k m m' (m.calls k) refl h in
    let (before, later, issued, free) = phase_of-awaiting a k p (sym (r.calls k) ∙ at) in
    let served : p ≤ a.served = ground (arith, r.resolved p, done) in
    let first : k ≡ a.served + 1 = omega (arith, before, later, served) in
    let idle : a.busy ≡ false = elim (Bool-cases a.busy) [
      | inl b ↦ absurd (free b first)
      | inr b ↦ b
    ] in
    (
      first,
      idle,
      omega (arith, later, issued),
      rw made (record {
        tail = r.tail;
        made = r.made;
        resolved = r.resolved;
        calls = λ n. ground (arith, r.calls n, first, idle);
        room = omega (arith, first, issued);
      }),
    )

Represents-release :
    (a : Lock) (m : Mutex) (k : ℕ)
    → Represents a m
    → m.calls k ≡ running
    → (k ≡ a.served + 1)
      × (a.busy ≡ true)
      × Represents (record a { served = a.served + 1; busy = false }) (release k m)
unfolding release set_call phase_of
Represents-release a m k r h =
    let (busy, first) = phase_of-running a k (sym (r.calls k) ∙ h) in
    (
      first,
      busy,
      record {
        tail = r.tail;
        made = r.made;
        resolved = λ n. ground (arith, r.resolved n, first);
        calls = λ n. ground (arith, r.calls n, first, busy);
        room = ground (arith, r.room, busy);
      },
    )

-- Every step of the mutex is a step of the lock.
pub Step-refines :
    (a : Lock) {m m' : Mutex}
    → Represents a m
    → Step m m'
    → (b : Lock) × Grant a b × Represents b m'
Step-refines a r (calls_in m) = (_, takes a, Represents-run_exclusive a m r)
Step-refines a r (resumes m m' k h) =
    let (_, idle, waiting, represents) = Represents-resume a m m' k r h in
    (_, acquires a idle waiting, represents)
Step-refines a r (settles m k h) =
    let (_, busy, represents) = Represents-release a m k r h in (_, frees a busy, represents)

-- Every run of the mutex from its creation is a run of the free ticket lock, and the state reached
-- stands for the state of the lock.
pub Steps-refines :
    {m : Mutex} → Steps create_mutex m → (a : Lock) × Grants free_lock a × Represents a m
Steps-refines here = (free_lock, same, Represents-create_mutex)
Steps-refines (next steps step) =
    let (a, grants, r) = Steps-refines steps in
    let (b, grant, r') = Step-refines a r step in (b, after grants grant, r')

-- Two calls of runExclusive never run at once: in a state reached from a new mutex, two running
-- calls are the same call.
pub exclusive :
    (m : Mutex) (i j : ℕ) → Steps create_mutex m → m.calls i ≡ running → m.calls j ≡ running → i ≡ j
exclusive m i j steps hi hj =
    let (a, _, r) = Steps-refines steps in
    (phase_of-running a i (sym (r.calls i) ∙ hi)).1
    ∙ sym (phase_of-running a j (sym (r.calls j) ∙ hj)).1

-- The call that runs next is the one that came first of those that wait.
pub in_order :
    (m m' : Mutex) (i j p : ℕ)
    → Steps create_mutex m
    → resume i m ≡ some m'
    → m.calls j ≡ awaiting p
    → i ≤ j
in_order m m' i j p steps h waits =
    let (a, _, r) = Steps-refines steps in
    let (first, _, _, _) = Represents-resume a m m' i r h in
    let (_, later, _, _) = phase_of-awaiting a j p (sym (r.calls j) ∙ waits) in
    omega (arith, first, later)

-- In a state reached from a new mutex in which a call waits, either a call runs or a call can
-- resume.
pub waiting-progress :
    (m : Mutex) (j p : ℕ)
    → Steps create_mutex m
    → m.calls j ≡ awaiting p
    → ((i : ℕ) × (m.calls i ≡ running)) ⊎ ((i : ℕ) × (m' : Mutex) × (resume i m ≡ some m'))
waiting-progress m j p steps waits =
    let (a, _, r) = Steps-refines steps in
    let (_, later, issued, _) = phase_of-awaiting a j p (sym (r.calls j) ∙ waits) in
    elim (Bool-cases a.busy) [
      | inl busy ↦ inl (a.served + 1, r.calls (a.served + 1) ∙ phase_of-busy a busy)
      | inr idle ↦ inr (
        a.served + 1,
        set_call (a.served + 1) running m,
        resume-ready (a.served + 1) a.served m
            (r.calls (a.served + 1) ∙ phase_of-next a idle (omega (arith, later, issued)))
            (r.resolved a.served ∙ ground arith),
      )
    ]
