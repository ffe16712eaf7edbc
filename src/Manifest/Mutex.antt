-- ===== src/Manifest/Mutex.antt =====
-- packages/manifest/src/internal/mutex.ts. Promises are numbered in the order they are made, and a
-- call of `runExclusive` goes by the number of the promise it makes; 0 is `Promise.resolve()`.
pub mod Lock
pub mod Refines
use sovereign_jedi.Prelude.{ℕ, ◌+◌, ◌≡◌, Bool, true, false, Option, none, some, ◌==◌, if◌then◌else◌}

-- Where a call is: before its start, at `await previous`, in `fn`, or past its `finally`.
pub data Phase : Type 0 where
  absent running returned : Phase
  awaiting : ℕ → Phase

-- `made` is the next promise's number.
pub record Mutex : Type 0 where
  pub tail : ℕ
  pub made : ℕ
  pub resolved : ℕ → Bool
  pub calls : ℕ → Phase

unfoldable pub create_mutex : Mutex
create_mutex = record { tail = 0; made = 1; resolved = λ n. n == 0; calls = λ n. absent }

unfoldable pub set_call : ℕ → Phase → Mutex → Mutex
set_call k phase m = record m { calls = λ n. if n == k then phase else m.calls n }

-- A call up to its `await previous`: it remembers the tail and puts a new promise in its place.
unfoldable pub run_exclusive : Mutex → Mutex
unfolding set_call
run_exclusive m = set_call m.made (awaiting m.tail) (record m { tail = m.made; made = m.made + 1 })

-- `fn` begins once the promise awaited has resolved.
unfoldable pub resume : ℕ → Mutex → Option Mutex
unfolding set_call
resume k m = elim (m.calls k) [
  | awaiting previous ↦ if m.resolved previous then some (set_call k running m) else none
  | _ ↦ none
]

-- `finally { release() }`, whether `fn` returned or threw
unfoldable pub release : ℕ → Mutex → Mutex
unfolding set_call
release k m =
    set_call k returned (record m { resolved = λ n. if n == k then true else m.resolved n })

pub data Step : Mutex → Mutex → Type 0 where
  calls_in : (m : Mutex) → Step m (run_exclusive m)
  resumes : (m m' : Mutex) (k : ℕ) → resume k m ≡ some m' → Step m m'
  settles : (m : Mutex) (k : ℕ) → m.calls k ≡ running → Step m (release k m)

pub data Steps (m : Mutex) : Mutex → Type 0 where
  here : Steps m m
  next : {u v : Mutex} → Steps m u → Step u v → Steps m v
