-- ===== src/Icmp/Checksum.antt =====
-- src/net-modules/icmp.c: a packet with its checksum in place sums to nothing.
use freenote_probe.Base.{ℕ, ◌+◌, ◌*◌, ◌/◌, ◌%◌, ◌≤◌, ◌<◌, [], ◌∷◌, length, All, ◌≡◌, ap, ◌∙◌, arith}
use freenote_probe.CString.{Bytes}
use freenote_probe.Icmp.{sum_words, fold_sum, in_cksum}

sum_words_le : (s : Bytes) → All (λ b. b < 256) s → sum_words s ≤ 32768 * length s
unfolding sum_words
sum_words_le [] h = omega arith
sum_words_le (a ∷ []) (ha, h) = omega arith
sum_words_le (a ∷ b ∷ s) (ha, (hb, h)) = omega (arith, sum_words_le s h)

-- Adding the complement of a folded sum makes a sum that folds to nothing.
fold_sum_zero : (s : ℕ) → s ≤ 2147450880 → fold_sum (s + fold_sum s) ≡ 0
unfolding fold_sum
fold_sum_zero s h = omega arith

fold_sum_small : (s : ℕ) → fold_sum s < 65536
unfolding fold_sum
fold_sum_small s = omega arith

-- The checksum of a packet, which is computed while its own two bytes are 0, is the one that makes
-- the checksum of the whole packet 0: the test of a receiver. The packet has at most 65535 bytes.
pub in_cksum_verifies :
    (type code : ℕ) (data_bytes : Bytes)
    → type < 256
    → code < 256
    → All (λ b. b < 256) data_bytes
    → length data_bytes + 4 < 65536
    → in_cksum (
        type
        ∷ code
        ∷ in_cksum (type ∷ code ∷ 0 ∷ 0 ∷ data_bytes) % 256
        ∷ in_cksum (type ∷ code ∷ 0 ∷ 0 ∷ data_bytes) / 256
        ∷ data_bytes)
      ≡ 0
unfolding in_cksum sum_words
in_cksum_verifies type code data_bytes ht hc h small = ap fold_sum rejoined ∙ fold_sum_zero s bound
  where
    s : ℕ
    s = type + 256 * code + (0 + sum_words data_bytes)

    bound : s ≤ 2147450880
    bound = omega (arith, sum_words_le data_bytes h)

    rejoined :
        type + 256 * code + (fold_sum s % 256 + 256 * (fold_sum s / 256) + sum_words data_bytes)
        ≡ s + fold_sum s
    rejoined = omega arith
