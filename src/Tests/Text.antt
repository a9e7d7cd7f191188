-- ===== src/Tests/Text.antt =====
-- src/urlencode.c and src/urldecode.c on concrete texts.
use freenote_probe.Base.{◌<◌, ◌≡◌, refl, false, none, some, All, ltb, if◌then◌else◌, arith}
use freenote_probe.CString.{Bytes, codes, isalnum, scan_hex2, strchr, c_string, isspace}
use freenote_probe.CString.Search.{Lacks-strchr}
use freenote_probe.UrlCode.{
  is_literal, hex_digit, urlencode_common, urlencode_dup, scan_tmp, urldecode_common, urldecode_dup,
}
use freenote_probe.UrlCode.Encode.{encode, literals, urlencode_dup_lem}
use freenote_probe.UrlCode.RoundTrip.{urldecode_dup-urlencode_dup}

abbrev plain : Bytes
plain = codes "a b"

abbrev escaped : Bytes
escaped = codes "a%20b"

plain-bytes : All (λ c. c < 256) plain
plain-bytes = (omega arith, (omega arith, (omega arith, tt)))

plain-encoded : urlencode_dup plain false ≡ some escaped
unfolding urlencode_dup urlencode_common is_literal isalnum hex_digit
plain-encoded = refl

-- With nothing to copy as it is, the buffer is too small.
spaces-encoded : urlencode_dup (codes "  ") false ≡ none
unfolding urlencode_dup urlencode_common is_literal isalnum hex_digit
spaces-encoded = refl

-- A percent sign with no digits gives the last value that was read, and takes two bytes.
stray-decoded : urldecode_dup (codes "%41%zzb") 0 ≡ some (codes "AAb")
unfolding urldecode_dup urldecode_common scan_tmp scan_hex2 c_string isspace
stray-decoded = refl

urldecode_dup-urlencode_dup_example : urldecode_dup escaped 7 ≡ some plain
urldecode_dup-urlencode_dup_example =
    urldecode_dup-urlencode_dup plain false 7 plain-bytes
      (Lacks-strchr plain 0 (unfold strchr in refl)) plain-encoded

urlencode_dup_example :
    urlencode_dup plain false
    ≡ (if ltb 0 (literals false plain) then some (encode false plain) else none)
urlencode_dup_example = urlencode_dup_lem plain false
