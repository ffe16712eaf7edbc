-- ===== src/Manifest/Mutex/Lock.antt =====
-- What a mutex promises: callers take tickets and hold it one at a time, in the order of their
-- tickets.
use sovereign_jedi.Prelude.{ℕ, ◌+◌, ◌<◌, ◌≡◌, Bool, true, false}

-- `issued` tickets are out, numbered from 1; `served` of them are done; `busy` says that the next is
-- being served.
pub record Lock : Type 0 where
  pub issued : ℕ
  pub served : ℕ
  pub busy : Bool

unfoldable pub free_lock : Lock
free_lock = record { issued = 0; served = 0; busy = false }

-- One step of the lock; the ticket that is taken, that acquires it or that is done is named.
pub data Grant : Lock → Lock → Type 0 where
  takes : (a : Lock) → Grant a (record a { issued = a.issued + 1 })
  acquires : (a : Lock) → a.busy ≡ false → a.served < a.issued → Grant a (record a { busy = true })
  frees : (a : Lock) → a.busy ≡ true → Grant a (record a { served = a.served + 1; busy = false })

pub data Grants (a : Lock) : Lock → Type 0 where
  here : Grants a a
  next : {b c : Lock} → Grants a b → Grant b c → Grants a c
