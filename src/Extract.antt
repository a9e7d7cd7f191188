-- ===== src/Extract.antt =====
-- src/url-extract.c and `regex_iterate` of src/p_regex.c: the URLs of the components of a page. The
-- search of the regular expression library is the parameter `regexec`, which takes a text to the
-- offsets of its first match.
pub mod Complete
pub mod Matches
pub mod Trim
use freenote_probe.Base.{
  ℕ, zero, suc, ◌+◌, ◌-◌, Bool, true, false, ◌||◌, Option, none, some, List, [], ◌∷◌, ◌++◌, ◌==◌,
  if◌then◌else◌, ltb, leb, length, get_elem?, take, drop,
}
use freenote_probe.CString.{Bytes, streq, starts_with, strchr}
use freenote_probe.Ran.{Ran, returns, aborts, faults, ◌>>=◌}

abbrev pub max_urls_per_line : ℕ
max_urls_per_line = 32

abbrev pub total_urls : ℕ
total_urls = 32

-- The number of bytes before the first `c`, or all of them.
unfoldable pub index_of : ℕ → Bytes → ℕ
index_of c [] = 0
index_of c (x ∷ s) = let n = index_of c s in if x == c then 0 else suc n

-- The first slash after the third character from the first colon, or the end of the text or what
-- lies behind it.
unfoldable pub domain_end : Bytes → ℕ
domain_end url = let skipped = index_of b':' url + 3 in skipped + index_of b'/' (drop skipped url)

unfoldable pub get_domain : Bytes → Bytes
get_domain url = take (domain_end url) url

-- The offset of the last `c`.
unfoldable pub last_of : ℕ → Bytes → Option ℕ
last_of c [] = none
last_of c (x ∷ s) = elim (last_of c s) [
  | some n ↦ some (suc n)
  | none ↦ if x == c then some 0 else none
]

-- A copy of the bytes from `start` to `last`. A size below zero cannot be allocated, where
-- `safe_malloc` aborts, and a text of no size has no room for its terminator.
unfoldable pub copy_path : Bytes → ℕ → ℕ → Ran Bytes
copy_path url start last =
    if leb start (last + 1)
    then returns (take (last + 1 - start) (drop start url))
    else if start == last + 2
    then faults
    else aborts

-- Without any slash the loop runs out of the front of the text.
abbrev pub path_to : Bytes → Option ℕ → Ran Bytes
path_to url none = faults
path_to url (some last) = copy_path url (domain_end url) last

unfoldable pub get_path : Bytes → Ran Bytes
get_path url = path_to url (last_of b'/' url)

-- A URL with a colon is complete.
abbrev pub completed : Bytes → Bytes → Bytes → Option Bytes → Bytes
completed url domain path (some colon) = url
completed url domain path none =
    if starts_with url (b'/' ∷ []) then domain ++ url else (domain ++ path) ++ url

unfoldable pub complete_url : Bytes → Bytes → Bytes → Bytes
complete_url url domain path = completed url domain path (strchr url b':')

-- An equals sign or a quotation mark. The terminator of the text is none.
abbrev pub is_illegal : Option ℕ → Bool
is_illegal none = false
is_illegal (some c) = c == b'=' || c == 39 || c == b'"'

-- The loop that skips illegal characters at both ends; `none` if the fuel is used up, or if the end
-- reaches the front of the text.
unfoldable pub trim : ℕ → Bytes → ℕ → ℕ → Option (ℕ × ℕ)
trim zero line so eo = none
trim (suc fuel) line so zero = none
trim (suc fuel) line so (suc eo) =
    let front = is_illegal (get_elem? line so) in
    let back = is_illegal (get_elem? line eo) in
    let rest = trim fuel line (if front then so + 1 else so) (if back then eo else suc eo) in
    if front || back then rest else some (so, suc eo)

-- One element of the list of matches; a match at offset 0 is left as it is. An offset moves behind
-- the first '='.
unfoldable pub only_url : Bytes → ℕ × ℕ → Ran (ℕ × ℕ)
only_url line (so, eo) =
    if ltb 0 so
    then elim (strchr (drop so line) b'=') [
      | none ↦ faults
      | some eq ↦
          let start = length line - length eq + 1 in
          elim (trim (length line + eo + 1) line start eo) [ none ↦ faults | some m ↦ returns m ]
    ]
    else returns (so, eo)

unfoldable pub urls_only : Bytes → List (ℕ × ℕ) → Ran (List (ℕ × ℕ))
urls_only line [] = returns []
urls_only line (m ∷ ms) =
    only_url line m >>= λ url. (urls_only line ms >>= λ rest. returns (url ∷ rest))

module _ (regexec : Bytes → Option (ℕ × ℕ)) where
  -- The matches one behind the other, `max` at most. `line` is the text from `lindex` on.
  unfoldable pub cut_loop : ℕ → Bytes → ℕ → List (ℕ × ℕ)
  cut_loop zero line lindex = []
  cut_loop (suc max) line lindex = elim (regexec line) [
    | none ↦ []
    | some (so, eo) ↦ (lindex + so, lindex + eo) ∷ cut_loop max (drop eo line) (lindex + eo)
  ]

  -- The array of matches: those that are found, and -1 in the elements behind them.
  unfoldable pub url_cut : Bytes → ℕ → Ran (List (ℕ × ℕ))
  url_cut line max = urls_only line (cut_loop max line 0)

-- The text of a match, of `len - 1` bytes or up to the end of the string, where strncpy stops. A match
-- that begins behind the end of the string is a fault, and so is a length of -1, for which strncpy
-- leaves the memory; for a lower one `safe_malloc` aborts.
unfoldable pub match_text : Bytes → ℕ → ℕ → Ran Bytes
match_text s so eo =
    if ltb (eo + 1) so
    then aborts
    else if ltb eo so || ltb (length s) so
    then faults
    else returns (take (eo - so) (drop so s))

-- strncmp(list[i], s + match.rm_so, len - 1) == 0; a negative length is a huge one,
-- and a match that begins behind the end of the string a fault.
unfoldable pub same_start : Bytes → ℕ → ℕ → Bytes → Ran Bool
same_start s so eo u =
    if ltb (length s) so
    then faults
    else returns
        (if leb so eo then starts_with u (take (eo - so) (drop so s)) else streq u (drop so s))

-- The loop over the array, whose free elements are `none`; `left` is max - i.
unfoldable pub append_from : Bytes → ℕ → ℕ → ℕ → List (Option Bytes) → Ran (List (Option Bytes))
append_from s so eo left [] = faults
append_from s so eo left (none ∷ rest) = match_text s so eo >>= λ text. returns (some text ∷ rest)
append_from s so eo left (some u ∷ rest) =
    let more = append_from s so eo (left - 1) rest in
    if left == 0
    then returns (some u ∷ rest)
    else (same_start s so eo u >>= λ same.
        if same then returns (some u ∷ rest) else (more >>= λ rs. returns (some u ∷ rs)))

unfoldable pub append_match : ℕ × ℕ → Bytes → ℕ → List (Option Bytes) → Ran (List (Option Bytes))
append_match (so, eo) s max list = append_from s so eo max list

-- The loop over the array of matches, with `left` elements to go. The elements behind those that are
-- listed have the offset -1, which is not above 0.
unfoldable pub iterate_from :
    ℕ → List (ℕ × ℕ) → Bytes → ℕ → List (Option Bytes) → Ran (ℕ × List (Option Bytes))
iterate_from zero ms s max list = returns (0, list)
iterate_from (suc left) [] s max list = returns (0, list)
iterate_from (suc left) ((so, eo) ∷ ms) s max list =
    if ltb 0 so
    then (append_match (so, eo) s max list >>= λ l.
        (iterate_from left ms s max l >>= λ (n, l2). returns (suc n, l2)))
    else iterate_from left ms s max list

unfoldable pub regex_iterate :
    List (ℕ × ℕ) → Bytes → ℕ → List (Option Bytes) → Ran (ℕ × List (Option Bytes))
regex_iterate ms s max list = iterate_from max ms s max list

-- The loop that completes the URLs up to the first free element.
unfoldable pub complete_all : Bytes → Bytes → ℕ → List (Option Bytes) → List (Option Bytes)
complete_all domain path zero list = list
complete_all domain path (suc n) [] = []
complete_all domain path (suc n) (none ∷ rest) = none ∷ rest
complete_all domain path (suc n) (some u ∷ rest) =
    some (complete_url u domain path) ∷ complete_all domain path n rest

-- The array of matches has 32 elements: with more URLs the loop over it leaves the array.
unfoldable pub gather_urls :
    List (ℕ × ℕ) → Bytes → ℕ → List (Option Bytes) → Ran (ℕ × List (Option Bytes))
gather_urls [] file maxurls urls = returns (0, urls)
gather_urls (m ∷ ms) file maxurls urls =
    if ltb max_urls_per_line maxurls then faults else regex_iterate (m ∷ ms) file maxurls urls

unfoldable pub extract_urls :
    (Bytes → Option (ℕ × ℕ))
    → List (Option Bytes)
    → ℕ
    → Bytes
    → Bytes
    → Ran (ℕ × List (Option Bytes))
extract_urls regexec urls maxurls file base_url = get_path base_url >>= λ path.
    (url_cut regexec file max_urls_per_line >>= λ regs.
    (gather_urls regs file maxurls urls >>= λ (total, found). returns (
      total,
      complete_all (get_domain base_url) path
          (if ltb total_urls maxurls then total_urls else maxurls) found,
    )))
