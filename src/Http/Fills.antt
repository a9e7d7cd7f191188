-- ===== src/Http/Fills.antt =====
-- src/net-modules/http.c: a reading loop on a connection that delivers.
use freenote_probe.Base.{
  ℕ, zero, suc, ◌+◌, ◌-◌, ◌≤◌, Bool, false, some, List, [], ◌∷◌, ◌++◌, ◌≡◌, refl, sym, ap, ◌∙◌,
  arith, length, take, drop, All, append_assoc, append-nil, length-drop, take_add, drop-drop, ltb,
  Bool-cases, inl, inr,
}
use freenote_probe.Base.Int.{pos, eq_ℤ, ltb_ℤ}
use freenote_probe.CString.{Bytes}
use freenote_probe.Http.{
  gives, Round, Loop, next_num, received, http_read_size, read_loop, read_to_buffer,
}
use freenote_probe.Http.Transfer.{take-take, length-take-take, next_num_le}

-- select finds the connection ready, and the call may give at least one byte.
abbrev pub IsReady : Round → Type 0
IsReady r = (n m : ℕ) × (r.ret ≡ pos (suc n)) × (r.reading ≡ gives (suc m))

abbrev never : Bytes → Bool
never seen = false

piece_and_rest : (k l : ℕ) (s : Bytes) → k ≤ l → take k s ++ take (l - k) (drop k s) ≡ take l s
piece_and_rest k l s h =
    let e : k + (l - k) ≡ l = omega arith in sym (take_add k (l - k) s) ∙ ap (λ n. take n s) e

-- A round that gives something; `go` is the rest of the loop.
ready_round :
    (go : Loop) (len k m x : ℕ) (seen incoming : Bytes)
    → ((l : ℕ) (s i : Bytes) → l ≤ len → l ≤ length i → go l s i ≡ some (s ++ take l i, drop l i))
    → next_num (suc len) ≡ suc k
    → len ≤ length incoming
    → received never go (suc len) seen (x ∷ incoming) (gives (suc m))
      ≡ some (seen ++ take (suc len) (x ∷ incoming), drop (suc len) (x ∷ incoming))
ready_round go len k m x seen incoming rest piece_size there =
    let p = take m (take k incoming) in
    let n = length p in
    let small : n ≤ len =
      omega (arith, length-take-take m k incoming, piece_size, next_num_le (suc len)) in
    let left : suc len - suc n ≡ len - n = omega arith in
    rw piece_size (
      ap (λ l. go l (seen ++ x ∷ p) (drop n incoming)) left
      ∙ rest (len - n) (seen ++ x ∷ p) (drop n incoming) (omega arith)
          (omega (arith, length-drop {0} n incoming))
      ∙ ap (λ s. some (s, drop (len - n) (drop n incoming)))
          (append_assoc seen (x ∷ p) (take (len - n) (drop n incoming))
            ∙ ap (λ q. seen ++ x ∷ (q ++ take (len - n) (drop n incoming))) (take-take m k incoming)
            ∙ ap (λ q. seen ++ x ∷ q) (piece_and_rest n len incoming small))
      ∙ ap (λ q. some (seen ++ x ∷ take len incoming, q))
          (drop-drop n (len - n) incoming
            ∙ ap (λ l. drop l incoming) (let e : n + (len - n) ≡ len = omega arith in e)))

next_num-suc : (len : ℕ) → (k : ℕ) × (next_num (suc len) ≡ suc k)
next_num-suc len = elim (Bool-cases (ltb (suc len) http_read_size)) [
  | inl t ↦ (len, rw t refl)
  | inr t ↦ (16383, rw t refl)
]

-- With a ready round for each byte that is asked for, and as many bytes on their way, exactly these
-- bytes are read.
read_loop-IsReady :
    (rounds : List Round) (len : ℕ) (seen incoming : Bytes)
    → All IsReady rounds
    → len ≤ length rounds
    → len ≤ length incoming
    → read_loop never rounds len seen incoming ≡ some (seen ++ take len incoming, drop len incoming)
unfolding read_loop
read_loop-IsReady rounds zero seen incoming h enough there =
    ap (λ s. some (s, incoming)) (sym (append-nil seen))
read_loop-IsReady [] (suc len) seen incoming h enough there = absurd (omega arith)
read_loop-IsReady (r ∷ rounds) (suc len) seen [] h enough there = absurd (omega arith)
read_loop-IsReady (r ∷ rounds) (suc len) seen (x ∷ incoming) ((n, m, ret, reading), h) enough
      there =
    let (k, piece_size) = next_num-suc len in
    let some_fds : eq_ℤ (pos (suc n)) (pos 0) ≡ false = ground arith in
    let no_error : ltb_ℤ (pos (suc n)) (pos 0) ≡ false = ground arith in
    rw ret (
      rw some_fds (
        rw no_error (
          rw reading (
            ready_round (λ l s i. read_loop never rounds l s i) len k m x seen incoming
              (λ l s i hl hi. read_loop-IsReady rounds l s i h (omega arith) hi) piece_size
              (omega arith)))))

pub read_to_buffer-IsReady :
    (rounds : List Round) (len : ℕ) (incoming : Bytes)
    → All IsReady rounds
    → len ≤ length rounds
    → len ≤ length incoming
    → read_to_buffer rounds len incoming ≡ some (take len incoming, drop len incoming)
unfolding read_to_buffer
read_to_buffer-IsReady rounds len incoming h enough there =
    read_loop-IsReady rounds len [] incoming h enough there
