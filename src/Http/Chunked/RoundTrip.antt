-- ===== src/Http/Chunked/RoundTrip.antt =====
-- src/net-modules/http.c: `unchunk_chunked_body` on well-formed chunks.
use freenote_probe.Base.{
  ℕ, zero, suc, ◌+◌, ◌-◌, ◌*◌, ◌%◌, ◌≤◌, ◌<◌, Bool, true, false, not, Option, none, some, [], ◌∷◌,
  ◌++◌, ◌==◌, ltb, length, ◌≡◌, refl, ap, ◌∙◌, sym, arith, All, length-append, take-length,
  drop-length, drop_past, append_assoc, append-nil,
}
use freenote_probe.CString.{Bytes, hex_value}
use freenote_probe.Http.Chunked.{
  size_mod, isxdigit, not_xdigit, hex_number, strtoul16, run, last, Body, chunk_len, take_chunk,
  unchunk_loop, unchunk_chunked_body,
}

abbrev pub crlf : Bytes
crlf = 13 ∷ 10 ∷ []

abbrev pub IsXdigit : ℕ → Type 0
IsXdigit c = isxdigit c ≡ true

-- A text of one hexadecimal digit or more, for the number `n`.
pub record IsSize (size : Bytes) (n : ℕ) : Type 0 where
  pub some_digit : 0 < length size
  pub digits : All IsXdigit size
  pub value : hex_number 0 size ≡ n

-- The text of a chunked body: each chunk is its size, a line end, that many bytes and a line end;
-- the chunk of size 0 ends it, whatever follows.
pub data Chunks : Bytes → Bytes → Type 0 where
  last_chunk : (size rest : Bytes) → IsSize size 0 → Chunks (size ++ 13 ∷ 10 ∷ rest) []
  chunk :
      (size piece : Bytes) {text body : Bytes}
      → IsSize size (length piece)
      → 0 < length piece
      → Chunks text body
      → Chunks (size ++ 13 ∷ 10 ∷ (piece ++ 13 ∷ 10 ∷ text)) (piece ++ body)

run_all :
    (test : ℕ → Bool) (p : Bytes) (room b : ℕ) (s : Bytes)
    → All (λ c. test c ≡ true) p
    → test b ≡ false
    → length p ≤ room
    → run test room (p ++ b ∷ s) ≡ some (length p)
unfolding run
run_all test [] zero b s hp hb h = refl
run_all test [] (suc room) b s hp hb h = rw hb refl
run_all test (x ∷ p) zero b s hp hb h = absurd (omega arith)
run_all test (x ∷ p) (suc room) b s (hx, hp) hb h =
    rw hx (rw (run_all test p room b s hp hb (omega arith)) refl)

hex_number-append :
    (size : Bytes) (n : ℕ) (s : Bytes) → hex_number n (size ++ 13 ∷ s) ≡ hex_number n size
unfolding hex_number hex_value
hex_number-append [] n s = refl
hex_number-append (x ∷ size) n s =
    elim (hex_value x)
      as (λ v.
        elim v [ none ↦ n | some w ↦ hex_number (n * 16 + w) (size ++ 13 ∷ s) ]
        ≡ elim v [ none ↦ n | some w ↦ hex_number (n * 16 + w) size ]) [
          | none ↦ refl
          | some v ↦ hex_number-append size (n * 16 + v) s
        ]

cr_no_digit : isxdigit 13 ≡ false
unfolding hex_value
cr_no_digit = refl

crlf_no_digit : All (λ c. not_xdigit c ≡ true) (13 ∷ 10 ∷ [])
unfolding hex_value
crlf_no_digit = (refl, (refl, tt))

strtoul16_digits :
    (size s : Bytes) (n : ℕ) → hex_number 0 size ≡ n → n < size_mod → strtoul16 (size ++ 13 ∷ s) ≡ n
unfolding strtoul16
strtoul16_digits size s n value h =
    let read : hex_number 0 (size ++ 13 ∷ s) ≡ n = hex_number-append size 0 s ∙ value in
    rw read (ground arith)

-- A round that finds a size behind the bytes `sep`, none of which is a digit.
pub round :
    (fuel body_len c0 : ℕ) (sep size rest dest : Bytes) (n : ℕ)
    → All (λ c. not_xdigit c ≡ true) sep
    → IsSize size n
    → n < size_mod
    → c0 + length sep + length size + 2 ≤ body_len
    → body_len < size_mod
    → unchunk_loop (suc fuel) body_len c0 (sep ++ (size ++ 13 ∷ 10 ∷ rest)) dest
      ≡ take_chunk
          (λ c2 s2 dest2. unchunk_loop fuel body_len c2 s2 dest2)
          body_len
          (c0 + length sep + length size + 2)
          rest
          dest
          n
unfolding unchunk_loop
round fuel body_len c0 sep [] rest dest n hsep hs hn room small =
    let none_yet : 0 < 0 = hs.some_digit in absurd (omega arith)
round fuel body_len c0 sep (d ∷ size) rest dest n hsep hs hn room small =
    let digit : isxdigit d ≡ true = hs.digits.0 in
    let at_digit : not_xdigit d ≡ false = ap not digit in
    let end : last body_len ≡ body_len - 1 = omega arith in
    let within : ltb (c0 + length sep + suc (length size) + 1) body_len ≡ true = ground arith in
    rw
      (run_all not_xdigit sep (last body_len - c0) d (size ++ 13 ∷ 10 ∷ rest) hsep at_digit
        (omega arith))
      (rw (drop-length sep (d ∷ size ++ 13 ∷ 10 ∷ rest)) (
        rw
          (run_all isxdigit (d ∷ size) (last body_len - (c0 + length sep)) 13 (10 ∷ rest) hs.digits
            cr_no_digit (omega arith))
          (rw (drop-length (d ∷ size) (13 ∷ 10 ∷ rest)) (
            rw within (
              rw (drop_past (d ∷ size) (13 ∷ 10 ∷ rest) 2) (
                ap
                  (take_chunk (λ c2 s2 dest2. unchunk_loop fuel body_len c2 s2 dest2) body_len
                    (c0 + length sep + suc (length size) + 2) rest dest)
                  (strtoul16_digits (d ∷ size) (10 ∷ rest) n hs.value hn)))))))

-- A chunk that is all in the body is copied.
one_chunk :
    (go : ℕ → Bytes → Bytes → Option Body) (body_len c0 : ℕ) (piece rest dest : Bytes)
    → 0 < length piece
    → length dest + length piece ≤ body_len
    → body_len < size_mod
    → take_chunk go body_len c0 (piece ++ rest) dest (length piece)
      ≡ go (c0 + length piece) rest (dest ++ piece)
unfolding chunk_len
one_chunk go body_len c0 piece rest dest some_byte room small =
    let more : (length piece == 0) ≡ false = ground arith in
    let within : ltb body_len ((length dest + length piece) % size_mod) ≡ false = ground arith in
    let there : ltb (length (piece ++ rest)) (length piece) ≡ false =
      ground (arith, length-append {0} piece rest) in
    rw more (rw within (rw there (rw (take-length piece rest) (rw (drop-length piece rest) refl))))

-- The whole body, from behind its first `sep`.
unchunk_loop-Chunks :
    (fuel body_len c0 : ℕ) (sep extra dest : Bytes) {text body : Bytes}
    → Chunks text body
    → All (λ c. not_xdigit c ≡ true) sep
    → c0 + length sep + length text ≤ body_len
    → body_len < 9223372036854775808
    → length dest ≤ c0
    → length text < fuel
    → unchunk_loop fuel body_len c0 (sep ++ (text ++ extra)) dest
      ≡ some (record { bytes = dest ++ body; body_len = length (dest ++ body) })
unchunk_loop-Chunks zero body_len c0 sep extra dest ch hsep room small fits fuel_ok =
    absurd (omega arith)
unchunk_loop-Chunks (suc fuel) body_len c0 sep extra dest (last_chunk size rest hs) hsep room small
      fits fuel_ok =
    let sizes : length (size ++ 13 ∷ 10 ∷ rest) ≡ length size + suc (suc (length rest)) =
      length-append size (13 ∷ 10 ∷ rest) in
    ap (λ s. unchunk_loop (suc fuel) body_len c0 (sep ++ s) dest)
      (append_assoc size (13 ∷ 10 ∷ rest) extra)
    ∙ round fuel body_len c0 sep size (rest ++ extra) dest 0 hsep hs (omega arith)
        (omega (arith, sizes)) (omega arith)
    ∙ ap (λ b. some (record { bytes = b; body_len = length b })) (sym (append-nil dest))
unchunk_loop-Chunks (suc fuel) body_len c0 sep extra dest
      (chunk size piece {text} {body} hs some_byte ch) hsep room small fits fuel_ok =
    let sizes : length (size ++ 13 ∷ 10 ∷ (piece ++ 13 ∷ 10 ∷ text))
        ≡ length size + suc (suc (length (piece ++ 13 ∷ 10 ∷ text))) =
      length-append size (13 ∷ 10 ∷ (piece ++ 13 ∷ 10 ∷ text)) in
    let behind : length (piece ++ 13 ∷ 10 ∷ text) ≡ length piece + suc (suc (length text)) =
      length-append piece (13 ∷ 10 ∷ text) in
    ap (λ s. unchunk_loop (suc fuel) body_len c0 (sep ++ s) dest)
      (append_assoc size (13 ∷ 10 ∷ (piece ++ 13 ∷ 10 ∷ text)) extra
        ∙ ap (λ s. size ++ 13 ∷ 10 ∷ s) (append_assoc piece (13 ∷ 10 ∷ text) extra))
    ∙ round fuel body_len c0 sep size (piece ++ 13 ∷ 10 ∷ (text ++ extra)) dest (length piece) hsep
        hs (omega (arith, sizes, behind)) (omega (arith, sizes)) (omega arith)
    ∙ one_chunk (λ c2 s2 dest2. unchunk_loop fuel body_len c2 s2 dest2) body_len
        (c0 + length sep + length size + 2) piece (13 ∷ 10 ∷ (text ++ extra)) dest some_byte
        (omega (arith, sizes, behind)) (omega arith)
    ∙ unchunk_loop-Chunks fuel body_len (c0 + length sep + length size + 2 + length piece)
        (13 ∷ 10 ∷ []) extra (dest ++ piece) ch crlf_no_digit (omega (arith, sizes, behind)) small
        (omega (arith, length-append {0} dest piece)) (omega (arith, sizes, behind))
    ∙ ap (λ b. some (record { bytes = b; body_len = length b })) (append_assoc dest piece body)

-- A well-formed chunked body of less than 2^63 bytes becomes the pieces of its chunks, joined in order, with their
-- length as its own, whatever else the buffer holds.
pub unchunk_chunked_body-Chunks :
    (extra : Bytes) {text body : Bytes}
    → Chunks text body
    → length text < 9223372036854775808
    → unchunk_chunked_body (text ++ extra) (length text)
      ≡ some (record { bytes = body; body_len = length body })
unfolding unchunk_chunked_body
unchunk_chunked_body-Chunks extra {text} ch small =
    let next : length text + 1 ≡ suc (length text) = omega arith in
    rw next (
      unchunk_loop-Chunks (suc (length text)) (length text) 0 [] extra [] ch tt (omega arith) small
        (omega arith) (omega arith))
