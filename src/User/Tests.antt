-- ===== src/User/Tests.antt =====
-- Runs of the identity calls and of the password file's lines.
use carrotos.Base.{◌==◌, ◌||◌, not, bit_and, arith, ◌≡◌, none, some, [], ◌∷◌}
use carrotos.Text.{Text}
use carrotos.Process.{Process, Processes, running}
use carrotos.User.{allow_file}
use carrotos.User.Access.{allow_file_lem}

abbrev shell : Process
shell = record {
  pid = 1;
  state = running;
  main_thread_id = 1;
  signal = 0;
  threads_count = 1;
  pgid = 1;
  sid = 1;
  fd_addr = 0;
  parent_pid = 0;
  heap_start_addr = 0;
  heap_end_addr = 0;
  sig_handlers = [];
  uid = 7;
  gid = 8;
  euid = 7;
  egid = 8;
  reuid = 7;
  regid = 8;
  resuid = 7;
  resgid = 8;
  lock = 0;
  return_code = 0;
  sm = [];
  cmd_line = [];
  env = [];
  cwd = [];
}

abbrev processes : Processes
processes = none ∷ some shell ∷ []

-- "ann:x:12:34:home"
abbrev ann : Text
ann = 97 ∷ 110 ∷ 110 ∷ []

abbrev home : Text
home = 104 ∷ 111 ∷ 109 ∷ 101 ∷ []

-- User 7 owns a file that the owner may read and nobody may execute: user 7 may not read it.
allow_file_lem_example : allow_file 4 7 7 256 7 7 ≡ (7 == 0 || not (bit_and 256 1 == 0))
allow_file_lem_example = allow_file_lem 4 7 7 256 7 7 (omega arith) (omega arith) (omega arith)
