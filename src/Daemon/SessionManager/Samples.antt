-- ===== src/Daemon/SessionManager/Samples.antt =====
-- The theorem on sessions at a concrete input.
use clai.Common.{List, [], ◌∷◌, none, ◌≡◌}
use clai.Daemon.SessionManager.{Terminal, Command, new_session_manager, get}
use clai.Daemon.SessionManager.Isolation.{
  Call, do_start, do_end, do_touch, do_update_cwd, do_stash, run, lives, run-get,
}

abbrev laptop : Terminal
laptop = record {
  shell = "zsh";
  os = "darwin";
  hostname = "mac";
  username = "ann";
  cwd = "/home";
  started_at = 3;
}

abbrev built : Command
built = record {
  cmd_id = "c1";
  cmd_raw = "go build";
  cwd = "/src";
  git_repo = "clai";
  git_root = "/src";
  git_branch = "main";
}

-- Two sessions whose calls interleave.
abbrev calls : List Call
calls =
    record { id = "a"; now = 4; action = do_start laptop }
    ∷ record { id = "b"; now = 5; action = do_start laptop }
    ∷ record { id = "a"; now = 6; action = do_stash built }
    ∷ record { id = "b"; now = 7; action = do_update_cwd "/tmp" }
    ∷ record { id = "b"; now = 8; action = do_end }
    ∷ record { id = "a"; now = 9; action = do_touch }
    ∷ []

run-get_example : get (run new_session_manager calls) "a" ≡ lives "a" none calls
run-get_example = run-get "a" calls
