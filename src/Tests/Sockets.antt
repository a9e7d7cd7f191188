-- ===== src/Tests/Sockets.antt =====
-- src/net-modules/http.c: the sending and receiving loops on concrete connections.
use freenote_probe.Base.{ℕ, false, some, [], ◌∷◌, ◌≡◌, refl, arith}
use freenote_probe.Base.Int.{pos, negsuc}
use freenote_probe.CString.{codes, strstr, starts_with, c_string}
use freenote_probe.Http.{
  write_from_buffer, Round, gives, read_loop, read_header, strstr_crlf0crlf, strstr_crlf0crlf_from,
}
use freenote_probe.Http.Transfer.{
  sends, all_sent, write_from_buffer-Accepts, Reads, read_loop-Reads,
}

write_from_buffer-Accepts_example :
    write_from_buffer (pos 1 ∷ pos 2 ∷ []) (codes "GET") ≡ some (3, codes "GET")
write_from_buffer-Accepts_example =
    write_from_buffer-Accepts (pos 1 ∷ pos 2 ∷ []) (codes "GET")
      (sends (omega arith) (sends (omega arith) all_sent))

abbrev ready : ℕ → Round
ready n = record { ret = pos 1; eintr = false; reading = gives n }

read_loop-Reads_example :
    Reads 3 []
      (codes "abcd")
      (read_loop (λ s. false) (ready 2 ∷ ready 9 ∷ ready 1 ∷ []) 3 [] (codes "abcd"))
read_loop-Reads_example =
    read_loop-Reads (λ s. false) (ready 2 ∷ ready 9 ∷ ready 1 ∷ []) 3 [] (codes "abcd")
      ((λ e. cc), ((λ e. cc), ((λ e. cc), tt))) (omega arith)

-- A write that is interrupted ends the loop with the rest unsent.
interrupted : write_from_buffer (pos 1 ∷ negsuc 0 ∷ []) (codes "GET") ≡ some (1, codes "G")
unfolding write_from_buffer
interrupted = refl

-- The header is read up to the round that brings its empty line.
header_only :
    read_header (ready 3 ∷ ready 2 ∷ []) 20 (codes "a:b\n\nbody")
    ≡ some (codes "a:b\n\n", codes "body")
unfolding read_header read_loop strstr starts_with c_string
header_only = refl

-- The last chunk is not seen where it ends the buffer.
unseen_chunk : strstr_crlf0crlf (13 ∷ 10 ∷ b'0' ∷ 13 ∷ 10 ∷ []) 6 ≡ false
unfolding strstr_crlf0crlf strstr_crlf0crlf_from
unseen_chunk = refl
