-- ===== src/Dispatch/CheckIn/Restart.antt =====
-- src/lib/dispatch.c: the id of a probe outlives the program.
use freenote_probe.Base.{
  ℕ, ◌≤◌, ◌<◌, ◌+◌, ◌-◌, ◌*◌, ◌%◌, zero, suc, length-append, ltb, Bool, true, false, not, Option,
  none, some, [], ◌∷◌, ◌≡◌, ◌≢◌, refl, ap, ◌∙◌, arith, if◌then◌else◌, length, All,
}
use freenote_probe.Base.Int.{ℤ, pos, negsuc, eq_ℤ}
use freenote_probe.CString.{Bytes, codes, atoi, isdigit, isspace, digits_value}
use freenote_probe.CString.Decimal.{power_10, length-digits, decimal, digits}
use freenote_probe.CString.Search.{Lacks, c_string-Lacks}
use freenote_probe.Ran.{Ran, returns}
use freenote_probe.NvPair.{NvList, nv_hash}
use freenote_probe.FileMan.{TeamInfo, fm_abs, fm_read, fm_write, fm_team_info}
use freenote_probe.FileMan.Kept.{fm_read-fm_write, fm_read-other}
use freenote_probe.Dispatch.CheckIn.{
  scan_int, Session, key_result, save_dispatch_key, note_id, note_key, registered, with_team,
  dispatch_init, announced, on_line,
}

-- A number in decimal digits that does not begin with 0.
pub record IsNumber (d : ℕ) (s : Bytes) : Type 0 where
  pub leads : (b'1' ≤ d) × (d ≤ b'9')
  pub others : All (λ c. isdigit c ≡ true) s

-- "%i" and atoi agree on such a number.
scan_int-atoi : (d : ℕ) (s : Bytes) → IsNumber d s → scan_int (d ∷ s) ≡ some (atoi (d ∷ s))
unfolding scan_int atoi isspace digits_value
scan_int-atoi d [] h = ground arith
scan_int-atoi d (c ∷ s) h = ground arith

-- The value of digits that follow a number of `k` digits, `m` digits in all.
digits_value-lt :
    (s : Bytes) (n k m : ℕ)
    → All (λ c. isdigit c ≡ true) s
    → n < power_10 k
    → length s + k ≡ m
    → digits_value n s < power_10 m
unfolding digits_value
digits_value-lt [] n k m hs h e = let same : k ≡ m = omega arith in rw (← same) h
digits_value-lt (c ∷ s) n k m (hc, hs) h e =
    let digit : c - b'0' < 10 = ground (arith, hc) in
    rw hc
      (digits_value-lt s (n * 10 + (c - b'0')) (suc k) m hs (omega (arith, h, digit)) (omega arith))

power_10-pos : (k : ℕ) → 0 < power_10 k
power_10-pos zero = omega arith
power_10-pos (suc k) = omega (arith, power_10-pos k)

atoi-digits_value : (d : ℕ) (s : Bytes) → IsNumber d s → atoi (d ∷ s) ≡ pos (digits_value 0 (d ∷ s))
unfolding atoi isspace
atoi-digits_value d s h = ground arith

atoi-lt :
    (d : ℕ) (s : Bytes)
    → IsNumber d s
    → length s ≤ 7
    → (n : ℕ) × (atoi (d ∷ s) ≡ pos n) × (n < 100000000)
atoi-lt d s h few = (
  digits_value 0 (d ∷ s),
  atoi-digits_value d s h,
  let first : isdigit d ≡ true = (let (low, high) = h.leads in ground arith) in
      digits_value-lt (d ∷ s) 0 (7 - length s) 8 (first, h.others) (power_10-pos (7 - length s))
        (omega (arith, few)),
)

-- A number with at most eight digits fits into the array.
on_line-short : (id : ℤ) (n : ℕ) → id ≡ pos n → n < 100000000 → length (on_line id) < 38
unfolding on_line decimal
on_line-short id n e h = rw e (
    omega (
      arith,
      length-digits (n % 4294967296 + 1) (n % 4294967296) 7 (omega arith),
      length-append {0} (digits (n % 4294967296 + 1) (n % 4294967296))
          (codes "\nStatus:  on-line!\n"),
    ))

announced-short :
    (s : Session) (n : ℕ) → s.probe_id ≡ pos n → n < 100000000 → announced s ≡ returns (pos 0, s)
unfolding announced
announced-short s n e h =
    let short : ltb (length (on_line s.probe_id)) 38 ≡ true =
      ground (arith, on_line-short s.probe_id n e h) in
    rw short refl

number-Lacks : (d : ℕ) (s : Bytes) → IsNumber d s → Lacks 0 (d ∷ s)
number-Lacks d s h = (let (low, high) = h.leads in (λ e. omega arith), rest s h.others)
  where
    rest : (t : Bytes) → All (λ c. isdigit c ≡ true) t → Lacks 0 t
    rest [] hs = tt
    rest (c ∷ t) (hc, hs) = (λ e. ground (arith, hc, e), rest t hs)

abbrev id_file : Bytes
id_file = codes "probe.id"

abbrev key_file : Bytes
key_file = codes "dispatch.pub"

id_file-ne : id_file ≢ key_file
id_file-ne e = ground (arith, ap length e)

-- What a change of the session leaves: the id, and its file.
abbrev KeepsId : Bytes → Session → ℤ × Session → Type 0
KeepsId base_dir s (rv, after) =
    (fm_read base_dir after.files id_file ≡ fm_read base_dir s.files id_file)
    × (after.probe_id ≡ s.probe_id)

-- The key is written to another file than the id.
save_dispatch_key-KeepsId :
    (base_dir : Bytes) (loads : Bool) (s : Session) (key : Bytes)
    → KeepsId base_dir s (save_dispatch_key base_dir loads s key)
unfolding save_dispatch_key
save_dispatch_key-KeepsId base_dir loads s key = by_key s.has_key
  where
    by_key :
        (b : Bool)
        → KeepsId base_dir s (
            if b then (pos 0, s) else (
              key_result loads (fm_write base_dir s.files (codes "dispatch.pub") key).0,
              record s {
                has_key = true;
                files = (fm_write base_dir s.files (codes "dispatch.pub") key).1;
              },
            ))
    by_key true = (refl, refl)
    by_key false = (fm_read-other base_dir s.files key_file key id_file id_file-ne, refl)

note_key-KeepsId :
    (base_dir : Bytes) (loads : Bool) (rv : ℤ) (s : Session) (key : Option Bytes)
    → KeepsId base_dir s (note_key base_dir loads (rv, s) key)
note_key-KeepsId base_dir loads rv s none = (refl, refl)
note_key-KeepsId base_dir loads rv s (some key) = by_result (eq_ℤ rv (negsuc 0))
  where
    by_result :
        (b : Bool)
        → KeepsId base_dir s (if b then (rv, s) else save_dispatch_key base_dir loads s key)
    by_result true = (refl, refl)
    by_result false = save_dispatch_key-KeepsId base_dir loads s key

-- A probe that was given an id of one to eight decimal digits, the first of which is not 0, and that can
-- write the file of the id, has that id. After a restart, which finds the files as they were left then
-- and can read the one of the id, and where `fm_team_info` returns, `dispatch_init` takes the same id
-- from the file, and sends no message to the servers, whatever they would answer.
pub dispatch_init_restart :
    (base_dir : Bytes) (loads loads2 : Bool) (rv : ℤ) (s s2 : Session) (nvl : NvList) (d : ℕ)
    (id : Bytes) (info : TeamInfo) (exchange : Session → Ran (Option (ℤ × NvList)))
    → IsNumber d id
    → length id ≤ 7
    → nv_hash nvl (codes "probe_id") ≡ some (d ∷ id)
    → s.files.can_write (fm_abs base_dir (codes "probe.id")) ≡ true
    → s.files.can_read (fm_abs base_dir (codes "probe.id")) ≡ true
    → s2.files ≡ (registered base_dir loads rv s nvl).1.files
    → s2.probe_id ≡ pos 0
    → fm_team_info base_dir s2.files s2.team_name s2.pin_code ≡ returns info
    → ((registered base_dir loads rv s nvl).1.probe_id ≡ atoi (d ∷ id))
      × (dispatch_init base_dir loads2 exchange s2
          ≡ returns (pos 0, record (with_team s2 info) { probe_id = atoi (d ∷ id) }))
unfolding registered dispatch_init
dispatch_init_restart base_dir loads loads2 rv s s2 nvl d id info exchange number few given writable
      readable left fresh team =
    let key = nv_hash nvl (codes "dispatch_key") in
    let (r1, s1) = note_id base_dir rv s (some (d ∷ id)) in
    let (kept, same) = note_key-KeepsId base_dir loads r1 s1 key in
    let (written, read, others) =
      fm_read-fm_write base_dir s.files id_file (d ∷ id) (omega arith) writable readable in
    let there : fm_read base_dir s2.files id_file ≡ returns (some (d ∷ id)) =
      ap (λ f. fm_read base_dir f id_file) left
      ∙ ap
          (λ o.
            fm_read base_dir (note_key base_dir loads (note_id base_dir rv s o) key).1.files
              id_file)
          given
      ∙ kept
      ∙ read in
    let (n, is_n, small) = atoi-lt d id number few in
    let awake : not (eq_ℤ s2.probe_id (pos 0)) ≡ false = ap (λ i. not (eq_ℤ i (pos 0))) fresh in
    (
      ap (λ o. (note_key base_dir loads (note_id base_dir rv s o) key).1.probe_id) given ∙ same,
      rw awake (
          rw team (
            rw there (
              rw (c_string-Lacks (d ∷ id) (number-Lacks d id number))
                (rw (scan_int-atoi d id number) (announced-short _ n is_n small))))),
    )
