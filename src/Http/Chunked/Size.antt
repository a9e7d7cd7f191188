-- ===== src/Http/Chunked/Size.antt =====
-- src/net-modules/http.c: `unchunk_chunked_body` makes no more bytes than its buffer has.
use freenote_probe.Base.{
  ℕ, zero, suc, ◌+◌, ◌-◌, ◌≤◌, Bool, ◌&&◌, Option, none, some, [], ◌∷◌, ◌++◌, ◌>>=◌, ◌≡◌, arith,
  if◌then◌else◌, ◌==◌, ltb, length, take, drop, length-append, length-drop, length-take_le,
  Bool-cases, inl, inr,
}
use freenote_probe.CString.{Bytes}
use freenote_probe.Http.Chunked.{
  run, last, is_crlf, Body, chunk_len, copied, take_chunk, read_chunk, strtoul16, isxdigit,
  not_xdigit, unchunk_loop, unchunk_chunked_body,
}

-- The bytes and the length of the result, if there is one.
abbrev pub Fits : ℕ → Option Body → Type 0
Fits n none = Unit
Fits n (some b) = (length b.bytes ≤ n) × (b.body_len ≤ n)

abbrev AtMost : ℕ → Option ℕ → Type 0
AtMost n none = Unit
AtMost n (some k) = k ≤ n

run_le : (test : ℕ → Bool) (room : ℕ) (s : Bytes) → AtMost (length s) (run test room s)
unfolding run
run_le test zero s = omega arith
run_le test (suc room) [] = tt
run_le test (suc room) (x ∷ s) = elim (Bool-cases (test x)) [
  | inl t ↦ rw t (one_more (run test room s) (run_le test room s))
  | inr t ↦ rw t (omega arith)
]
  where
    one_more :
        (o : Option ℕ) → AtMost (length s) o → AtMost (suc (length s)) (o >>= λ k. some (suc k))
    one_more none h = tt
    one_more (some k) h = omega arith

Fits->>= :
    (n m : ℕ) (o : Option ℕ) (f : ℕ → Option Body)
    → AtMost m o
    → ((k : ℕ) → k ≤ m → Fits n (f k))
    → Fits n (o >>= f)
Fits->>= n m none f h g = tt
Fits->>= n m (some k) f h g = g k h

module _ (n : ℕ) (go : ℕ → Bytes → Bytes → Option Body)
    (more : (c : ℕ) (s dest : Bytes)
      → c + length s ≤ n
      → length dest + length s ≤ n
      → Fits n (go c s dest)) where
  take_chunk-Fits :
      (body_len c : ℕ) (s dest : Bytes) (len : ℕ)
      → c + length s ≤ n
      → length dest + length s ≤ n
      → Fits n (take_chunk go body_len c s dest len)
  take_chunk-Fits body_len c s dest len hc hd = elim (Bool-cases (len == 0)) [
    | inl t ↦ rw t (omega arith, omega arith)
    | inr t ↦ rw t (piece_of (chunk_len body_len c (length dest) len))
  ]
    where
      piece_of :
          (k : ℕ)
          → Fits n (
              copied k s >>= λ piece. go (c + length piece) (drop (length piece) s) (dest ++ piece))
      piece_of k = elim (Bool-cases (ltb (length s) k)) [
        | inl t ↦ rw t tt
        | inr t ↦
            let small : k ≤ length s = ground (arith, t) in
            let size = length-take_le {0} k s small in
            rw t (
              more (c + length (take k s)) (drop (length (take k s)) s) (dest ++ take k s)
                (omega (arith, size, length-drop {0} (length (take k s)) s))
                (omega (
                  arith,
                  size,
                  length-drop {0} (length (take k s)) s,
                  length-append {0} dest (take k s),
                )))
      ]

  read_chunk-Fits :
      (body_len c : ℕ) (s dest : Bytes) (k : ℕ)
      → c + length s ≤ n
      → length dest + length s ≤ n
      → k ≤ length s
      → Fits n (read_chunk go body_len c s dest k)
  read_chunk-Fits body_len c s dest k hc hd hk = elim (Bool-cases (ltb (c + k + 1) body_len)) [
    | inl t ↦ rw t (line_at (drop k s) (length-drop {0} k s))
    | inr t ↦ rw t (omega arith, omega arith)
  ]
    where
      line_at :
          (r : Bytes)
          → length r ≡ length s - k
          → Fits n (
              is_crlf r >>= λ line.
              if line
              then take_chunk go body_len (c + k + 2) (drop (k + 2) s) dest (strtoul16 s)
              else some (record { bytes = dest; body_len = c }))
      line_at [] h = tt
      line_at (x ∷ []) h = elim (Bool-cases (x == 13)) [
        | inl t ↦ rw t tt
        | inr t ↦ rw t (omega arith, omega arith)
      ]
      line_at (x ∷ y ∷ r) h = elim (Bool-cases (x == 13 && y == 10)) [
        | inl t ↦ rw t (
            take_chunk-Fits body_len (c + k + 2) (drop (k + 2) s) dest (strtoul16 s)
              (omega (arith, h, length-drop {0} (k + 2) s))
              (omega (arith, h, length-drop {0} (k + 2) s)))
        | inr t ↦ rw t (omega arith, omega arith)
      ]

unchunk_loop-Fits :
    (n fuel body_len c : ℕ) (s dest : Bytes)
    → c + length s ≤ n
    → length dest + length s ≤ n
    → Fits n (unchunk_loop fuel body_len c s dest)
unfolding unchunk_loop
unchunk_loop-Fits n zero body_len c s dest hc hd = tt
unchunk_loop-Fits n (suc fuel) body_len c s dest hc hd =
    Fits->>= n (length s) (run not_xdigit (last body_len - c) s) _ (run_le _ _ s) λ j hj.
      Fits->>= n (length (drop j s)) (run isxdigit (last body_len - (c + j)) (drop j s)) _
        (run_le _ _ (drop j s))
        λ k hk.
          read_chunk-Fits n (λ c2 s2 dest2. unchunk_loop fuel body_len c2 s2 dest2)
            (λ c2 s2 dest2 h1 h2. unchunk_loop-Fits n fuel body_len c2 s2 dest2 h1 h2) body_len
            (c + j) (drop j s) dest k (omega (arith, length-drop {0} j s))
            (omega (arith, length-drop {0} j s)) hk

-- Whatever the chunks say, the plain body is not larger than the buffer of the chunked one.
pub unchunk_chunked_body-Fits :
    (buf : Bytes) (body_len : ℕ) → Fits (length buf) (unchunk_chunked_body buf body_len)
unfolding unchunk_chunked_body
unchunk_chunked_body-Fits buf body_len =
    unchunk_loop-Fits (length buf) (body_len + 1) body_len 0 buf [] (omega arith) (omega arith)
