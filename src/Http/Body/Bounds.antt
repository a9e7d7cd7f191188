-- ===== src/Http/Body/Bounds.antt =====
-- src/net-modules/http.c: how large a body becomes that is read.
use freenote_probe.Base.{
  ℕ, ◌+◌, ◌%◌, ◌≤◌, ◌<◌, Bool, ◌&&◌, Option, none, some, List, [], ◌∷◌, arith, ltb, length, drop,
  length-append, length-drop, Bool-cases, inl, inr,
}
use freenote_probe.CString.{Bytes}
use freenote_probe.Ran.{returns, waits, ◌>>=◌, Always, Always->>=, Always-then}
use freenote_probe.Http.{Round, read_to_buffer_0}
use freenote_probe.Http.Chunked.{Body}
use freenote_probe.Http.Chunked.Size.{Fits}
use freenote_probe.Http.Body.{
  u32_mod, http_body_limit, Conn, read_with, Received, append_body, neck, split_head,
  behead_http_req, Inflated, goes_on, ends, broken, grown, stops_at, inflate_loop, whole_or_null,
  http_inflate,
}
use freenote_probe.Http.Body.Chunks.{
  Scan, last_one, ask, asked, scan, keep_piece, after_scan, at_most_read_size, chunk_loop,
}

-- One byte more than the limit.
abbrev pub most : ℕ
most = http_body_limit + 1

-- The size of the head that is read.
abbrev pub http_head_size : ℕ
http_head_size = 0x40000

abbrev pub Small : Received → Type 0
Small r = (length r.body ≤ most) × (r.room ≤ most)

pub behead_http_req-Small :
    (body : Option Body) (head : Bytes) (len : ℕ)
    → length head ≤ http_head_size
    → len ≤ http_body_limit
    → Always Small (behead_http_req body head len)
unfolding behead_http_req
behead_http_req-Small (some b) head len h small = tt
behead_http_req-Small none head len h small = split (neck head)
  where
    split : (o : Option ℕ) → Always Small (split_head head len o)
    split none = (omega arith, omega arith)
    split (some n) = elim (Bool-cases (ltb ((len + 1) % u32_mod) (length (drop n head)))) [
      | inl t ↦ rw t tt
      | inr t ↦ rw t (omega (arith, length-drop {0} n head), omega arith)
    ]

pub append_body-Small :
    (r : Received) (piece : Bytes) → r.room ≤ most → Always Small (append_body r piece)
unfolding append_body
append_body-Small r piece h = elim (Bool-cases (ltb r.room (length r.body + length piece))) [
  | inl t ↦ rw t tt
  | inr t ↦ rw t (
      let fits : length r.body + length piece ≤ r.room = ground (arith, t) in
      (omega (arith, fits, length-append {0} r.body piece), h))
]

-- What inflate gives stays below the limit.
inflate_loop-Fits :
    (calls : List Inflated) (dest : Option Bytes)
    → Fits most (whole_or_null dest)
    → Always (λ d. Fits most (whole_or_null d)) (inflate_loop calls dest)
unfolding inflate_loop
inflate_loop-Fits [] dest h = tt
inflate_loop-Fits (broken ∷ calls) none h = (omega arith, omega arith)
inflate_loop-Fits (broken ∷ calls) (some dest) h = h
inflate_loop-Fits (ends piece ∷ calls) dest h =
    elim (Bool-cases (stops_at (length (grown dest piece)))) [
      | inl t ↦ rw t h
      | inr t ↦ rw t (ground (arith, t), ground (arith, t))
    ]
inflate_loop-Fits (goes_on piece ∷ calls) dest h =
    elim (Bool-cases (stops_at (length (grown dest piece)))) [
      | inl t ↦ rw t h
      | inr t ↦
          let small : length (grown dest piece) ≤ most = ground (arith, t) in
          rw t (inflate_loop-Fits calls (some (grown dest piece)) (small, small))
    ]

pub http_inflate-Fits :
    (zlib : Bytes → Body → Option (List Inflated)) (encoding : Bytes) (body : Body)
    → Always (Fits most) (http_inflate zlib encoding body)
unfolding http_inflate
http_inflate-Fits zlib encoding body = started (zlib encoding body)
  where
    started :
        (o : Option (List Inflated))
        → Always (Fits most) (elim o [
          | none ↦ returns none
          | some calls ↦ inflate_loop calls none >>= λ dest. returns (whole_or_null dest)
        ])
    started none = tt
    started (some calls) =
        Always->>= (λ d. Fits most (whole_or_null d)) (Fits most) (inflate_loop calls none) _
          (inflate_loop-Fits calls none tt) (λ d h. h)

keep_piece-Small :
    (keep : Bool) (r : Received) (piece : Bytes) → Small r → Small (keep_piece keep r piece)
unfolding keep_piece
keep_piece-Small keep r piece (hb, hr) =
    elim (Bool-cases
      (keep && ltb 0 (length piece) && ltb (length r.body + length piece) http_body_limit)) [
        | inl t ↦
            let small : length r.body + length piece < http_body_limit = ground (arith, t) in
            rw t (omega (arith, length-append {0} r.body piece), omega arith)
        | inr t ↦ rw t (hb, hr)
      ]

abbrev pub SmallFirst : Received × Conn → Type 0
SmallFirst p = Small p.0

pub chunk_loop-Small :
    (keep : Bool) (calls : List (List Round)) (len : ℕ) (buf : Bytes) (r : Received)
    (incoming : Bytes)
    → Small r
    → Always SmallFirst (chunk_loop keep calls len buf r incoming)
unfolding chunk_loop
chunk_loop-Small keep calls len [] r incoming h = h
chunk_loop-Small keep [] len (x ∷ buf) r incoming h =
    Always-then SmallFirst (scan (length buf + 3) (x ∷ buf) 0 len) _ at_end
  where
    at_end :
        (s : Scan)
        → Always SmallFirst (
            after_scan
              (λ len2 piece r2 incoming2. waits)
              (record { calls = []; incoming = incoming })
              r
              s
              waits)
    at_end last_one = h
    at_end (ask n) = tt
chunk_loop-Small keep (rounds ∷ calls) len (x ∷ buf) r incoming h =
    Always-then SmallFirst (scan (length buf + 3) (x ∷ buf) 0 len) _ (λ s.
      scanned s (λ n piece incoming2.
        chunk_loop-Small keep calls n piece (keep_piece keep r piece) incoming2
          (keep_piece-Small keep r piece h)))
  where
    scanned :
        (s : Scan)
        → ((n : ℕ) (piece incoming2 : Bytes)
            → Always SmallFirst (chunk_loop keep calls n piece (keep_piece keep r piece) incoming2))
        → Always SmallFirst (
            after_scan
              (λ len2 piece r2 incoming2.
                chunk_loop keep calls len2 piece (keep_piece keep r2 piece) incoming2)
              (record { calls = rounds ∷ calls; incoming = incoming })
              r
              s
              (read_with read_to_buffer_0 (asked s) incoming (rounds ∷ calls)))
    scanned last_one more = h
    scanned (ask n) more =
        Always-then SmallFirst
          (read_with read_to_buffer_0 (at_most_read_size n) incoming (rounds ∷ calls)) _
          (λ (piece, after). more (at_most_read_size n) piece after.incoming)
