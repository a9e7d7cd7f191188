-- ===== src/Icmp.antt =====
-- src/net-modules/icmp.c: the checksum of a packet, and the test whether a packet that arrives is an
-- answer. Words are read on a machine with the low byte first.
pub mod Checksum
use freenote_probe.Base.{
  ℕ, ◌+◌, ◌-◌, ◌*◌, ◌/◌, ◌%◌, Bool, true, false, not, Option, none, some, List, [], ◌∷◌, ◌==◌,
  if◌then◌else◌, ltb, get_elem?,
}
use freenote_probe.Base.Int.{ℤ, pos, negsuc}
use freenote_probe.CString.{Bytes, codes}

-- The sum of the 16-bit words, and of an odd byte at the end. `int sum` does not overflow for the
-- size of a packet.
unfoldable pub sum_words : Bytes → ℕ
sum_words [] = 0
sum_words (a ∷ []) = a
sum_words (a ∷ b ∷ rest) = a + 256 * b + sum_words rest

-- The carries are added back twice, and the complement is cut to 16 bits.
unfoldable pub fold_sum : ℕ → ℕ
fold_sum sum =
    let once = sum / 65536 + sum % 65536 in let twice = once + once / 65536 in 65535 - twice % 65536

unfoldable pub in_cksum : Bytes → ℕ
in_cksum packet = fold_sum (sum_words packet)

abbrev pub icmp_minlen : ℕ
icmp_minlen = 8

-- The bytes `i` and `i + 1` as a word.
abbrev pub word_at : Bytes → ℕ → Option ℕ
word_at buf i = elim (get_elem? buf i) [
  | none ↦ none
  | some a ↦ elim (get_elem? buf (i + 1)) [ none ↦ none | some b ↦ some (a + 256 * b) ]
]

-- The header of the packet says its own length in words of four bytes, in the low half of its first
-- byte. The trip time that the function computes is not used. A packet is `cc` bytes of the buffer,
-- and a read outside the buffer is `none`.
unfoldable pub pr_pack : ℕ → Bytes → ℕ → Option ℕ
pr_pack ident buf cc = elim (get_elem? buf 0) [
  | none ↦ none
  | some first ↦
      let hlen = first % 16 * 4 in
      if ltb cc (hlen + icmp_minlen) then some 0 else elim (word_at buf (hlen + 4)) [
        | none ↦ none
        | some id ↦ if not (id == ident) then some 0 else some 1
      ]
]
