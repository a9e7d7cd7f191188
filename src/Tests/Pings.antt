-- ===== src/Tests/Pings.antt =====
-- src/net-modules/icmp.c on a concrete packet.
use freenote_probe.Base.{◌/◌, ◌%◌, some, [], ◌∷◌, ◌≡◌, refl, arith}
use freenote_probe.Icmp.{in_cksum, pr_pack}
use freenote_probe.Icmp.Checksum.{in_cksum_verifies}

in_cksum_verifies_example :
    in_cksum (
      8
      ∷ 0
      ∷ in_cksum (8 ∷ 0 ∷ 0 ∷ 0 ∷ 7 ∷ 1 ∷ 9 ∷ []) % 256
      ∷ in_cksum (8 ∷ 0 ∷ 0 ∷ 0 ∷ 7 ∷ 1 ∷ 9 ∷ []) / 256
      ∷ 7
      ∷ 1
      ∷ 9
      ∷ [])
    ≡ 0
in_cksum_verifies_example =
    in_cksum_verifies 8 0 (7 ∷ 1 ∷ 9 ∷ []) (omega arith) (omega arith)
      (omega arith, (omega arith, (omega arith, tt))) (omega arith)

-- The answer to another process, and the one to this process.
others_answer :
    pr_pack 258
      (69 ∷ 0 ∷ 0 ∷ 0 ∷ 0 ∷ 0 ∷ 0 ∷ 0 ∷ 0 ∷ 0 ∷ 0 ∷ 0 ∷ 0 ∷ 0 ∷ 0 ∷ 0 ∷ 0 ∷ 0 ∷ 0 ∷ 0 ∷ 0 ∷ 0 ∷ 0
        ∷ 0 ∷ 2 ∷ 2 ∷ 0 ∷ 0 ∷ [])
      28
    ≡ some 0
unfolding pr_pack
others_answer = refl

own_answer :
    pr_pack 258
      (69 ∷ 0 ∷ 0 ∷ 0 ∷ 0 ∷ 0 ∷ 0 ∷ 0 ∷ 0 ∷ 0 ∷ 0 ∷ 0 ∷ 0 ∷ 0 ∷ 0 ∷ 0 ∷ 0 ∷ 0 ∷ 0 ∷ 0 ∷ 0 ∷ 0 ∷ 0
        ∷ 0 ∷ 2 ∷ 1 ∷ 0 ∷ 0 ∷ [])
      28
    ≡ some 1
unfolding pr_pack
own_answer = refl
