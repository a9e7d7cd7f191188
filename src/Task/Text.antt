-- ===== src/Task/Text.antt =====
-- src/lib/task.c: `task_to_s`, the text of a task that the collection server gets, and its length.
use freenote_probe.Base.{
  ℕ, ◌*◌, ◌≤◌, Option, none, some, List, [], ◌∷◌, ◌++◌, ◌==◌, if◌then◌else◌, ◌≡◌, arith, length,
  length-append, All, Bool-cases, inl, inr,
}
use freenote_probe.Base.Int.{ℤ, pos}
use freenote_probe.CString.{Bytes}
use freenote_probe.CString.Decimal.{decimal, IsInt, length-decimal}
use freenote_probe.Clock.{time_ms}
use freenote_probe.Task.Types.{
  Task, ErrorCond, cond_undefined, cond_success, cond_dns_failure, cond_http_timeout,
  cond_redirects_exceeded, cond_other_problem, valid_task_magic,
}

-- The number of an `error_cond`.
abbrev pub cond_number : ErrorCond → ℤ
cond_number cond_undefined = pos 0
cond_number cond_success = pos 1
cond_number cond_dns_failure = pos 2
cond_number cond_http_timeout = pos 3
cond_number cond_redirects_exceeded = pos 4
cond_number cond_other_problem = pos 999

-- The numbers behind the address.
abbrev pub measures : Task → List ℤ
measures t =
    t.body_size
    ∷ time_ms t.resolve_time
    ∷ time_ms t.redirect_time
    ∷ time_ms t.connect_time
    ∷ time_ms t.first_byte_time
    ∷ time_ms t.page_time
    ∷ time_ms t.ctime
    ∷ t.components
    ∷ time_ms t.total_time
    ∷ []

-- A comma and "%d" for each number.
unfoldable pub print_numbers : List ℤ → Bytes
print_numbers [] = []
print_numbers (n ∷ ns) = b',' ∷ (decimal n ++ print_numbers ns)

-- The text, or `none` for the result 0. `inet_ntoa` prints an address.
unfoldable pub task_to_s : (ℕ → Bytes) → Task → Option Bytes
unfolding print_numbers
task_to_s inet_ntoa t =
    if t.magic == valid_task_magic
    then some (
        decimal t.type
        ++ (b','
            ∷ (decimal (cond_number t.err)
                ++ (b','
                    ∷ (decimal t.http_code
                        ++ (b',' ∷ (inet_ntoa t.ip_addr ++ print_numbers (measures t))))))))
    else none

length-print_numbers : (ns : List ℤ) → All IsInt ns → length (print_numbers ns) ≤ 12 * length ns
unfolding print_numbers
length-print_numbers [] h = omega arith
length-print_numbers (n ∷ ns) (hn, hs) = omega (
  arith,
  length-append {0} (decimal n) (print_numbers ns),
  length-decimal n hn,
  length-print_numbers ns hs,
)

cond_number-IsInt : (e : ErrorCond) → IsInt (cond_number e)
cond_number-IsInt cond_undefined = omega arith
cond_number-IsInt cond_success = omega arith
cond_number-IsInt cond_dns_failure = omega arith
cond_number-IsInt cond_http_timeout = omega arith
cond_number-IsInt cond_redirects_exceeded = omega arith
cond_number-IsInt cond_other_problem = omega arith

-- The text of a task whose numbers and milliseconds are `int` values has at most 159 characters, if
-- an address has at most 15: with its terminator it fits the 256 bytes that the report to the
-- collection server has for it.
pub length-task_to_s :
    (inet_ntoa : ℕ → Bytes) (t : Task) {text : Bytes}
    → ((a : ℕ) → length (inet_ntoa a) ≤ 15)
    → IsInt t.type
    → IsInt t.http_code
    → All IsInt (measures t)
    → task_to_s inet_ntoa t ≡ some text
    → length text ≤ 159
unfolding task_to_s
length-task_to_s inet_ntoa t {text} short type_int code_int ints e =
    let numbers = print_numbers (measures t) in
    let from_address = inet_ntoa t.ip_addr ++ numbers in
    let from_code = decimal t.http_code ++ (b',' ∷ from_address) in
    let from_err = decimal (cond_number t.err) ++ (b',' ∷ from_code) in
    elim (Bool-cases (t.magic == valid_task_magic)) [
      | inl valid ↦
          let same : decimal t.type ++ (b',' ∷ from_err) ≡ text = ground (arith, valid, e) in
          rw (← same) (
            omega (
              arith,
              length-append {0} (decimal t.type) (b',' ∷ from_err),
              length-append {0} (decimal (cond_number t.err)) (b',' ∷ from_code),
              length-append {0} (decimal t.http_code) (b',' ∷ from_address),
              length-append {0} (inet_ntoa t.ip_addr) numbers,
              length-decimal t.type type_int,
              length-decimal (cond_number t.err) (cond_number-IsInt t.err),
              length-decimal t.http_code code_int,
              short t.ip_addr,
              length-print_numbers (measures t) ints,
            ))
      | inr invalid ↦ ground (arith, invalid, e)
    ]
