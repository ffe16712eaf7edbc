-- ===== src/Session/History.antt =====
-- Any sequence of calls of the session's methods, each run to its end.
use sovereign_jedi.Prelude.{ℕ, Bool, Option, Text, List, [], ◌∷◌, Outcome, ok, err}
use sovereign_jedi.Prelude.Methods.{Ensures}
use sovereign_jedi.Platform.{Platform, Bytes}
use sovereign_jedi.Crypto.Unlock.{Surroundings}
use sovereign_jedi.Session.Verified.{LocalStorage}
use sovereign_jedi.Session.Manager.{
  SessionManager, PubKeyInput, new_session_manager, connect_wallet, lock_vault, get_verified,
  disconnect_wallet,
}
use sovereign_jedi.Session.Signing.{Signers, SessionError}
use sovereign_jedi.Session.Unlocking.{unlock_vault}
use sovereign_jedi.Session.Unlocking.Coherent.{unlock_vault-Ensures}
use sovereign_jedi.Session.Invariant.{
  IsCoherent, new_session_manager-IsCoherent, connect_wallet-IsCoherent, lock_vault-IsCoherent,
  get_verified-IsCoherent, disconnect_wallet-IsCoherent,
}

-- The times and the answers of the wallet are arguments of the calls.
pub data Call : Type 0 where
  connects : ℕ → PubKeyInput → Option Text → Call
  unlocks : Signers → Surroundings → Bytes → ℕ → Call
  locks : Call
  reads_verified : ℕ → Call
  disconnects : Call

unfoldable pub run_call : Platform → Call → SessionManager → SessionManager
run_call P (connects now pub_key provider) m = connect_wallet P now pub_key provider m
run_call P (unlocks signers s salt finished) m = (unlock_vault P signers s salt finished m).1
run_call P locks m = lock_vault m
run_call P (reads_verified now) m = (get_verified P now m).1
run_call P disconnects m = disconnect_wallet m

unfoldable pub run_calls : Platform → List Call → SessionManager → SessionManager
unfolding run_call
run_calls P [] m = m
run_calls P (c ∷ cs) m = run_calls P cs (run_call P c m)

either_way :
    (r : Outcome SessionError Unit × SessionManager)
    → Ensures (λ _. IsCoherent) IsCoherent r
    → IsCoherent r.1
either_way (ok a, m) h = h
either_way (err e, m) h = h

run_call-IsCoherent :
    (P : Platform) (c : Call) (m : SessionManager) → IsCoherent m → IsCoherent (run_call P c m)
unfolding run_call
run_call-IsCoherent P (connects now pub_key provider) m v =
    connect_wallet-IsCoherent P now pub_key provider m v
run_call-IsCoherent P (unlocks signers s salt finished) m v =
    either_way _ (unlock_vault-Ensures P signers s salt finished m v)
run_call-IsCoherent P locks m v = lock_vault-IsCoherent m
run_call-IsCoherent P (reads_verified now) m v = get_verified-IsCoherent P now m v
run_call-IsCoherent P disconnects m v = disconnect_wallet-IsCoherent m

run_calls-IsCoherent :
    (P : Platform) (cs : List Call) (m : SessionManager)
    → IsCoherent m
    → IsCoherent (run_calls P cs m)
unfolding run_calls
run_calls-IsCoherent P [] m v = v
run_calls-IsCoherent P (c ∷ cs) m v =
    run_calls-IsCoherent P cs (run_call P c m) (run_call-IsCoherent P c m v)

-- From a fresh session, after any calls of the session that run one after the other, the unlock
-- message and the vault-root message that are kept name the connected wallet, and an unlocked
-- vault has both messages with their signatures.
pub history-IsCoherent :
    (P : Platform) (now : ℕ) (window : Bool) (ls : LocalStorage) (cs : List Call)
    → IsCoherent (run_calls P cs (new_session_manager P now window ls))
history-IsCoherent P now window ls cs =
    run_calls-IsCoherent P cs _ (new_session_manager-IsCoherent P now window ls)
