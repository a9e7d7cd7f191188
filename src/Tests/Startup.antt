-- ===== src/Tests/Startup.antt =====
-- src/main.c, src/lib/fileman.c and src/lib/dispatch.c: the files, the start and the loop of a probe.
use freenote_probe.Base.{
  ℕ, ◌+◌, true, false, none, some, [], ◌∷◌, ◌++◌, ◌≡◌, ◌≢◌, refl, arith, replicate, if◌then◌else◌,
}
use freenote_probe.Base.Int.{ℤ, pos}
use freenote_probe.CString.{
  Bytes, codes, streq, strstr, strchr, starts_with, c_string, atoi, isspace, skip_space,
  digits_value,
}
use freenote_probe.CString.Search.{Lacks-strchr}
use freenote_probe.Ran.{returns, waits, Always}
use freenote_probe.NvPair.{NvList, nv_hash, hash_slots}
use freenote_probe.FileMan.{
  Files, fm_abs, fm_size, fm_read, fm_write, fm_team_info, team_info_size, store_info, info_field,
}
use freenote_probe.FileMan.Kept.{fm_read-fm_write}
use freenote_probe.FileMan.TeamInfo.{HasField, fm_team_info-HasField}
use freenote_probe.Main.{Parts, mainloop, mainiter, do_or_die}
use freenote_probe.Main.Limits.{AtLimit, Succeeds, mainloop-AtLimit, mainloop-Succeeds}
use freenote_probe.Dispatch.CheckIn.{
  Session, registered, dispatch_init, with_team, scan_int, octal_value, save_dispatch_key,
}
use freenote_probe.Dispatch.CheckIn.Restart.{IsNumber, dispatch_init_restart}

abbrev team_text : Bytes
team_text = codes "team_name:cats;\npin_code:77;\n"

-- A team file, and nothing else.
abbrev files : Files
files = record {
  content = λ p. if streq p (codes "/d/probe.team") then some team_text else none;
  can_read = λ p. true;
  can_write = λ p. true;
  can_unlink = λ p. true;
}

fm_read-fm_write_example :
    ((fm_write (codes "/d") files (codes "probe.id") (codes "12")).0 ≡ pos 1)
    × (fm_read
          (codes "/d")
          (fm_write (codes "/d") files (codes "probe.id") (codes "12")).1
          (codes "probe.id")
        ≡ returns (some (codes "12")))
    × ((other : Bytes)
        → other ≢ codes "probe.id"
        → fm_read (codes "/d") (fm_write (codes "/d") files (codes "probe.id") (codes "12")).1 other
          ≡ fm_read (codes "/d") files other)
fm_read-fm_write_example =
    fm_read-fm_write (codes "/d") files (codes "probe.id") (codes "12") (omega arith) refl refl

has_team : HasField (c_string team_text) (codes "team_name:") (codes "cats")
unfolding c_string strstr starts_with
has_team = record {
  before = [];
  rest = codes "\npin_code:77;\n";
  is_text = refl;
  first = refl;
  one_line = Lacks-strchr (codes "cats") b';' (unfold strchr in refl);
}

has_pin : HasField (c_string team_text) (codes "pin_code:") (codes "77")
unfolding c_string strstr starts_with
has_pin = record {
  before = codes "team_name:cats;\n";
  rest = codes "\n";
  is_text = refl;
  first = refl;
  one_line = Lacks-strchr (codes "77") b';' (unfold strchr in refl);
}

fm_team_info-HasField_example :
    (team_name pin_code : Bytes) × (fm_team_info
        (codes "/d")
        files
        (replicate team_info_size 0)
        (replicate team_info_size 0)
      ≡ returns (pos 0, team_name, pin_code))
    × (c_string team_name ≡ codes "cats")
    × (c_string pin_code ≡ codes "77")
unfolding fm_read fm_size fm_abs streq
fm_team_info-HasField_example =
    fm_team_info-HasField (codes "/d") files team_text (codes "cats") (codes "77") refl has_team
      has_pin (Lacks-strchr (codes "cats") 0 (unfold strchr in refl))
      (Lacks-strchr (codes "77") 0 (unfold strchr in refl)) (omega arith) (omega arith)

-- The terminator is one byte too far: the third byte of an older text stays.
old_team :
    store_info (codes "lions" ++ 0 ∷ []) (codes "ox")
    ≡ some (codes "oxo" ++ 0 ∷ codes "s" ++ 0 ∷ [])
unfolding store_info
old_team = refl

-- The state counts the steps of the loop.
abbrev parts : Parts
parts = record {
  State = ℕ;
  get_jobs = λ n. returns (pos 0, n + 1);
  process_tasks = λ n. returns (pos 0, n + 10);
  send_results = λ n. returns (pos 0, n + 100);
  dns_cache_flush = λ n. n + 1000;
}

parts-Succeeds : Succeeds parts (λ n. n + 1) (λ n. n + 10) (λ n. n + 100)
parts-Succeeds = record { jobs_given = λ n. refl; work_done = λ n. refl; sent = λ n. refl }

mainloop-Succeeds_example : mainloop parts 5 (pos 3) 0 7 ≡ returns (pos 0, 3, 3340)
mainloop-Succeeds_example =
    mainloop-Succeeds parts (λ n. n + 1) (λ n. n + 10) (λ n. n + 100) parts-Succeeds 2 5 0 7
      (omega arith)

mainloop-AtLimit_example : Always (AtLimit parts 3) (mainloop parts 9 (pos 3) 1 7)
mainloop-AtLimit_example = mainloop-AtLimit parts 9 3 1 7 (omega arith)

-- Without a limit the loop goes on.
unlimited : mainloop parts 4 (pos 0) 0 7 ≡ waits
unfolding mainloop mainiter do_or_die
unlimited = refl

abbrev answer : NvList
answer = record {
  nvp =
      some (record { name = codes "probe_id"; value = codes "42" })
      ∷ some (record { name = codes "dispatch_key"; value = codes "KEY" })
      ∷ [];
  size = 2;
  data_size = 0;
  last = 0;
}

abbrev session : Session
session = record {
  probe_id = pos 0;
  team_name = replicate team_info_size 0;
  pin_code = replicate team_info_size 0;
  has_key = false;
  files = files;
}

abbrev restarted : Session
restarted = record session {
  team_name = codes "0123456789";
  pin_code = codes "0123456789";
  files = (registered (codes "/d") true (pos 0) session answer).1.files;
}

abbrev info : ℤ × Bytes × Bytes
info = (pos 0, codes "cats4" ++ 0 ∷ codes "6789", codes "772" ++ 0 ∷ codes "456789")

forty_two-IsNumber : IsNumber b'4' (codes "2")
forty_two-IsNumber = record { leads = (omega arith, omega arith); others = (refl, tt) }

-- No message is sent: the exchange would not return.
dispatch_init_restart_example :
    ((registered (codes "/d") true (pos 0) session answer).1.probe_id ≡ atoi (codes "42"))
    × (dispatch_init (codes "/d") true (λ s. waits) restarted
        ≡ returns (pos 0, record (with_team restarted info) { probe_id = atoi (codes "42") }))
unfolding registered nv_hash hash_slots streq fm_team_info fm_read fm_size fm_abs fm_write
    save_dispatch_key info_field store_info strstr strchr starts_with c_string
dispatch_init_restart_example =
    dispatch_init_restart (codes "/d") true true (pos 0) session restarted answer b'4' (codes "2")
      info (λ s. waits) forty_two-IsNumber (omega arith) refl refl refl refl refl refl

-- The two ways to read a number differ where it begins with 0.
octal_id : scan_int (codes "010") ≡ some (pos 8)
unfolding scan_int octal_value skip_space isspace
octal_id = refl

decimal_id : atoi (codes "010") ≡ pos 10
unfolding atoi skip_space isspace digits_value
decimal_id = refl
