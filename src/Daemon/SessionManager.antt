-- ===== src/Daemon/SessionManager.antt =====
-- internal/daemon/session_manager.go: the sessions that are open. The lock makes each call one
-- step; `now` is what `time.Now()` reads. `GetAll` and `List` return the values and the keys of the
-- map, in the order in which it is kept here; Go leaves the order open.
use clai.Common.{ℕ, length, Bool, true, false, List, [], ◌∷◌, String, Option, none, some, map}
use clai.Common.StringMap.{StringMap, lookup, insert, erase, adjust}
pub mod Isolation
mod Samples

pub record SessionInfo : Type 0 where
  pub session_id : String
  pub shell : String
  pub os : String
  pub hostname : String
  pub username : String
  pub cwd : String
  pub started_at : ℕ
  pub last_activity : ℕ
  pub last_cmd_raw : String
  pub last_cmd_cwd : String
  pub last_git_repo : String
  pub last_git_root : String
  pub last_git_branch : String
  pub last_cmd_id : String

pub record SessionManager : Type 0 where
  pub sessions : StringMap SessionInfo

unfoldable pub new_session_manager : SessionManager
new_session_manager = record { sessions = [] }

-- The arguments of `Start` after the id.
pub record Terminal : Type 0 where
  pub shell : String
  pub os : String
  pub hostname : String
  pub username : String
  pub cwd : String
  pub started_at : ℕ

abbrev pub started : String → Terminal → ℕ → SessionInfo
started id t now = record {
  session_id = id;
  shell = t.shell;
  os = t.os;
  hostname = t.hostname;
  username = t.username;
  cwd = t.cwd;
  started_at = t.started_at;
  last_activity = now;
  last_cmd_raw = "";
  last_cmd_cwd = "";
  last_git_repo = "";
  last_git_root = "";
  last_git_branch = "";
  last_cmd_id = "";
}

unfoldable pub start : SessionManager → String → Terminal → ℕ → SessionManager
start m id t now = record { sessions = insert id (started id t now) m.sessions }

unfoldable pub end : SessionManager → String → SessionManager
end m id = record { sessions = erase id m.sessions }

-- `Get`, which returns a copy.
unfoldable pub get : SessionManager → String → Option SessionInfo
get m id = lookup id m.sessions

abbrev pub touched : ℕ → SessionInfo → SessionInfo
touched now info = record info { last_activity = now }

unfoldable pub touch : SessionManager → String → ℕ → SessionManager
touch m id now = record { sessions = adjust id (touched now) m.sessions }

abbrev pub moved : String → ℕ → SessionInfo → SessionInfo
moved cwd now info = record info { cwd = cwd; last_activity = now }

unfoldable pub update_cwd : SessionManager → String → String → ℕ → SessionManager
update_cwd m id cwd now = record { sessions = adjust id (moved cwd now) m.sessions }

-- The arguments of `StashCommand` after the id.
pub record Command : Type 0 where
  pub cmd_id : String
  pub cmd_raw : String
  pub cwd : String
  pub git_repo : String
  pub git_root : String
  pub git_branch : String

abbrev pub stashed : Command → ℕ → SessionInfo → SessionInfo
stashed c now info = record info {
  last_cmd_raw = c.cmd_raw;
  last_cmd_cwd = c.cwd;
  last_git_repo = c.git_repo;
  last_git_root = c.git_root;
  last_git_branch = c.git_branch;
  last_cmd_id = c.cmd_id;
  last_activity = now;
}

unfoldable pub stash_command : SessionManager → String → Command → ℕ → SessionManager
stash_command m id c now = record { sessions = adjust id (stashed c now) m.sessions }

abbrev is_some : Option SessionInfo → Bool
is_some none = false
is_some (some _) = true

unfoldable pub exists : SessionManager → String → Bool
exists m id = is_some (lookup id m.sessions)

unfoldable pub active_count : SessionManager → ℕ
active_count m = length m.sessions

unfoldable pub list : SessionManager → List String
list m = map (λ (e : String × SessionInfo). e.0) m.sessions

unfoldable pub get_all : SessionManager → List SessionInfo
get_all m = map (λ (e : String × SessionInfo). e.1) m.sessions
