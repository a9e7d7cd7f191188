-- ===== src/Http/Transfer.antt =====
-- src/net-modules/http.c: no byte is lost or changes its place, and no buffer overflows.
use freenote_probe.Base.{
  length-drop, take-append-drop, ℕ, zero, suc, ◌+◌, ◌-◌, ◌≤◌, Bool, not, ◌&&◌, Option, some, List,
  [], ◌∷◌, ◌++◌, ◌≡◌, ◌≢◌, refl, ap, ◌∙◌, arith, length, take, drop, All, append_assoc, Bool-cases,
  inl, inr, length-append,
}
use freenote_probe.Base.Int.{ℤ, pos, eq_ℤ, ltb_ℤ}
use freenote_probe.CString.{Bytes}
use freenote_probe.Http.{
  write_from_buffer, next_num, Reading, gives, again, fails, Round, Loop, take_piece, received,
  read_loop,
}

-- Each call takes some bytes of the piece that it is given, until the buffer is sent.
pub data Accepts : List ℤ → Bytes → Type 0 where
  all_sent : {answers : List ℤ} → Accepts answers []
  sends :
      {w : ℕ} {answers : List ℤ} {x : ℕ} {buf : Bytes}
      → suc w ≤ next_num (length (x ∷ buf))
      → Accepts answers (drop w buf)
      → Accepts (pos (suc w) ∷ answers) (x ∷ buf)

pub next_num_le : (len : ℕ) → next_num len ≤ len
next_num_le len = ground arith

-- If each call takes at least one byte of the piece that it is given, until nothing is left, then
-- the whole buffer is sent once and in order, and its length is returned.
pub write_from_buffer-Accepts :
    (answers : List ℤ) (buf : Bytes)
    → Accepts answers buf
    → write_from_buffer answers buf ≡ some (length buf, buf)
unfolding write_from_buffer
write_from_buffer-Accepts _ _ all_sent = refl
write_from_buffer-Accepts _ _ (sends {w} {answers} {x} {buf} fits rest) =
    let small : suc w ≤ length (x ∷ buf) = omega (arith, fits, next_num_le (length (x ∷ buf))) in
    let size : suc w + length (drop w buf) ≡ length (x ∷ buf) =
      omega (arith, small, length-drop {0} w buf) in
    rw (write_from_buffer-Accepts answers (drop w buf) rest) (
      ap (λ n. some (n, x ∷ take w buf ++ drop w buf)) size
      ∙ ap (λ s. some (length (x ∷ buf), x ∷ s)) (take-append-drop w buf))

-- The result is what was in the buffer and on its way, cut in two, and no more than `len` bytes are
-- new in the buffer.
abbrev pub Reads : ℕ → Bytes → Bytes → Option (Bytes × Bytes) → Type 0
Reads len seen incoming o =
    (out rest : Bytes) × (o ≡ some (out, rest))
    × (out ++ rest ≡ seen ++ incoming)
    × (length out ≤ length seen + len)

stays : (len : ℕ) (seen incoming : Bytes) → Reads len seen incoming (some (seen, incoming))
stays len seen incoming = (seen, incoming, refl, refl, omega arith)

-- A piece is the begin of what is on its way, and no longer than the room.
pub take-take : (n m : ℕ) (s : Bytes) → take n (take m s) ≡ take (length (take n (take m s))) s
take-take zero m s = refl
take-take (suc n) zero s = refl
take-take (suc n) (suc m) [] = refl
take-take (suc n) (suc m) (x ∷ s) = ap (◌∷◌ x) (take-take n m s)

pub length-take-take : (n m : ℕ) (s : Bytes) → length (take n (take m s)) ≤ m
length-take-take zero m s = omega arith
length-take-take (suc n) zero s = omega arith
length-take-take (suc n) (suc m) [] = omega arith
length-take-take (suc n) (suc m) (x ∷ s) = omega (arith, length-take-take n m s)

module _ (stop : Bytes → Bool) (go : Loop) (rounds : ℕ)
    (goes : (len : ℕ) (seen incoming : Bytes)
      → len ≤ rounds
      → Reads len seen incoming (go len seen incoming)) where
  take_piece-Reads :
      (len : ℕ) (seen incoming piece : Bytes)
      → len ≤ suc rounds
      → length piece ≤ len
      → piece ≡ take (length piece) incoming
      → Reads len seen incoming (take_piece stop go len seen incoming piece)
  take_piece-Reads len seen incoming [] enough fits begin = stays len seen incoming
  take_piece-Reads len seen incoming (x ∷ piece) enough fits begin =
      elim (Bool-cases (stop (seen ++ x ∷ piece))) [
        | inl t ↦ rw t (seen ++ x ∷ piece, left, refl, whole, size)
        | inr t ↦
            let (out, rest, ran, parts, short) =
              goes (len - suc (length piece)) (seen ++ x ∷ piece) left (omega arith) in
            rw t (
              out,
              rest,
              ran,
              parts ∙ whole,
              omega (arith, short, length-append {0} seen (x ∷ piece)),
            )
      ]
    where
      left : Bytes
      left = drop (suc (length piece)) incoming

      whole : (seen ++ x ∷ piece) ++ left ≡ seen ++ incoming
      whole =
          append_assoc seen (x ∷ piece) left
          ∙ ap (λ p. seen ++ (p ++ left)) begin
          ∙ ap (λ s. seen ++ s) (take-append-drop (suc (length piece)) incoming)

      size : length (seen ++ x ∷ piece) ≤ length seen + len
      size = omega (arith, length-append {0} seen (x ∷ piece))

  received-Reads :
      (len : ℕ) (seen incoming : Bytes) (reading : Reading)
      → reading ≢ again
      → len ≤ suc rounds
      → Reads len seen incoming (received stop go len seen incoming reading)
  received-Reads len seen incoming again h enough = absurd (h refl)
  received-Reads len seen incoming fails h enough = stays len seen incoming
  received-Reads len seen incoming (gives n) h enough =
      take_piece-Reads len seen incoming (take n (take (next_num len) incoming)) enough
        (omega (arith, length-take-take n (next_num len) incoming, next_num_le len))
        (take-take n (next_num len) incoming)

-- With as many rounds as the buffer has room, none of which is only to be repeated, a reading loop
-- comes to an end. The buffer then holds the first of the bytes that were on their way, and no more
-- than it has room for; the others are still to come.
pub read_loop-Reads :
    (stop : Bytes → Bool) (rounds : List Round) (len : ℕ) (seen incoming : Bytes)
    → All (λ (r : Round). r.reading ≢ again) rounds
    → len ≤ length rounds
    → Reads len seen incoming (read_loop stop rounds len seen incoming)
unfolding read_loop
read_loop-Reads stop rounds zero seen incoming h enough = stays zero seen incoming
read_loop-Reads stop [] (suc len) seen incoming h enough = absurd (omega arith)
read_loop-Reads stop (r ∷ rounds) (suc len) seen incoming (now, h) enough =
    let more =
      received-Reads stop _ (length rounds) (λ l s i e. read_loop-Reads stop rounds l s i h e)
        (suc len) seen incoming r.reading now enough in
    elim (Bool-cases (eq_ℤ r.ret (pos 0))) [
      | inl t ↦ rw t (stays (suc len) seen incoming)
      | inr t ↦ elim (Bool-cases (ltb_ℤ r.ret (pos 0) && not r.eintr)) [
        | inl u ↦ rw (t, u) (stays (suc len) seen incoming)
        | inr u ↦ rw (t, u) more
      ]
    ]
