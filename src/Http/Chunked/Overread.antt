-- ===== src/Http/Chunked/Overread.antt =====
-- src/net-modules/http.c: what the guard of `unchunk_chunked_body` lets through.
use freenote_probe.Base.{
  ℕ, suc, ◌+◌, ◌%◌, ◌≤◌, ◌<◌, true, false, Option, none, [], ◌∷◌, ◌++◌, ◌==◌, ltb, length, ◌≡◌,
  refl, ap, ◌∙◌, arith, length-append, append_assoc,
}
use freenote_probe.CString.{Bytes}
use freenote_probe.Http.Chunked.{
  size_mod, Body, chunk_len, take_chunk, unchunk_loop, unchunk_chunked_body,
}
use freenote_probe.Http.Chunked.RoundTrip.{IsSize, round}

-- A chunk of which too little arrived, but whose size is not larger than the text of the body.
cut_chunk :
    (go : ℕ → Bytes → Bytes → Option Body) (body_len c0 n : ℕ) (rest : Bytes)
    → length rest < n
    → n ≤ body_len
    → body_len < size_mod
    → take_chunk go body_len c0 rest [] n ≡ none
unfolding chunk_len
cut_chunk go body_len c0 n rest cut fits small =
    let more : (n == 0) ≡ false = ground arith in
    let within : ltb body_len ((0 + n) % size_mod) ≡ false = ground arith in
    let short : ltb (length rest) n ≡ true = ground arith in rw more (rw within (rw short refl))

-- A body that ends inside its first chunk: if the size of the chunk is larger than what arrived of
-- it, and not larger than the text of the body, then more is copied than the buffer holds, which is
-- the text and one byte for a terminator.
pub unchunk_chunked_body_cut :
    (size piece : Bytes) (n : ℕ)
    → IsSize size n
    → length piece + 1 < n
    → n ≤ length (size ++ 13 ∷ 10 ∷ piece)
    → length (size ++ 13 ∷ 10 ∷ piece) < size_mod
    → unchunk_chunked_body ((size ++ 13 ∷ 10 ∷ piece) ++ 0 ∷ []) (length (size ++ 13 ∷ 10 ∷ piece))
      ≡ none
unfolding unchunk_chunked_body
unchunk_chunked_body_cut size piece n hs cut fits small =
    let sizes : length (size ++ 13 ∷ 10 ∷ piece) ≡ length size + suc (suc (length piece)) =
      length-append size (13 ∷ 10 ∷ piece) in
    let body_len = length (size ++ 13 ∷ 10 ∷ piece) in
    let next : body_len + 1 ≡ suc body_len = omega arith in
    rw next (
      ap (λ s. unchunk_loop (suc body_len) body_len 0 s [])
        (append_assoc size (13 ∷ 10 ∷ piece) (0 ∷ []))
      ∙ round body_len body_len 0 [] size (piece ++ 0 ∷ []) [] n tt hs (omega arith)
          (omega (arith, sizes)) small
      ∙ cut_chunk (λ c2 s2 dest2. unchunk_loop body_len body_len c2 s2 dest2) body_len
          (0 + 0 + length size + 2) n (piece ++ 0 ∷ [])
          (omega (arith, length-append {0} piece (0 ∷ []))) fits small)
