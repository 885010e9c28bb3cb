-- ===== src/Daemon/SessionManager/Isolation.antt =====
-- Sessions do not disturb one another: what the manager holds of a session is told by the calls
-- on its id alone.
use clai.Common.{
  ℕ, if◌then◌else◌, List, [], ◌∷◌, String, str_eq, str_eq_iff, Option, none, some, ◌≡◌, refl, arith,
}
use clai.Common.StringMap.{lookup, lookup-insert, lookup-erase, lookup-adjust}
use clai.Daemon.SessionManager.{
  SessionManager, SessionInfo, Terminal, Command, new_session_manager, started, touched, moved,
  stashed, start, end, get, touch, update_cwd, stash_command,
}

pub data Action : Type 0 where
  do_start : Terminal → Action
  do_end : Action
  do_touch : Action
  do_update_cwd : String → Action
  do_stash : Command → Action

-- One call of the manager, at a clock reading.
pub record Call : Type 0 where
  pub id : String
  pub now : ℕ
  pub action : Action

abbrev act_on : SessionManager → String → ℕ → Action → SessionManager
act_on m id now (do_start t) = start m id t now
act_on m id now do_end = end m id
act_on m id now do_touch = touch m id now
act_on m id now (do_update_cwd cwd) = update_cwd m id cwd now
act_on m id now (do_stash c) = stash_command m id c now

unfoldable pub run : SessionManager → List Call → SessionManager
run m [] = m
run m (c ∷ cs) = run (act_on m c.id c.now c.action) cs

-- The life of one session: closed, or open with its data.
abbrev pub life : String → Option SessionInfo → ℕ → Action → Option SessionInfo
life id o now (do_start t) = some (started id t now)
life id o now do_end = none
life id none now _ = none
life id (some info) now do_touch = some (touched now info)
life id (some info) now (do_update_cwd cwd) = some (moved cwd now info)
life id (some info) now (do_stash c) = some (stashed c now info)

abbrev pub lives : String → Option SessionInfo → List Call → Option SessionInfo
lives id o [] = o
lives id o (c ∷ cs) = lives id (if str_eq c.id id then life id o c.now c.action else o) cs

get-act_on :
    (m : SessionManager) (k id : String) (now : ℕ) (a : Action)
    → get (act_on m k now a) id ≡ (if str_eq k id then life id (get m id) now a else get m id)
unfolding get start end touch update_cwd stash_command
get-act_on m k id now (do_start t) =
    ground (arith, str_eq_iff k id, lookup-insert k id (started k t now) m.sessions)
get-act_on m k id now do_end = ground (arith, lookup-erase k id m.sessions)
get-act_on m k id now do_touch = ground (arith, lookup-adjust k id (touched now) m.sessions)
get-act_on m k id now (do_update_cwd cwd) =
    ground (arith, lookup-adjust k id (moved cwd now) m.sessions)
get-act_on m k id now (do_stash c) = ground (arith, lookup-adjust k id (stashed c now) m.sessions)

run-lives :
    (m : SessionManager) (id : String) (cs : List Call) → get (run m cs) id ≡ lives id (get m id) cs
unfolding run
run-lives m id [] = refl
run-lives m id (c ∷ cs) =
    rw (run-lives (act_on m c.id c.now c.action) id cs, get-act_on m c.id id c.now c.action) refl

-- After any sequence of calls on any sessions `Get` returns what the life of that one session
-- comes to, through the calls on its id alone: a start opens it afresh, an end closes it, and the
-- updates change it only while it is open.
pub run-get :
    (id : String) (cs : List Call) → get (run new_session_manager cs) id ≡ lives id none cs
unfolding new_session_manager get lookup
run-get id cs = run-lives new_session_manager id cs
