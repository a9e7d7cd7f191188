-- ===== src/Cookie/Print.antt =====
-- `cookies_strlen` and `cookies_to_s` of src/lib/cookie.c: lengths of the printed text.
use freenote_probe.Base.{
  ◌+◌, true, false, none, some, List, [], ◌∷◌, ◌++◌, ◌==◌, ◌≡◌, ◌<◌, refl, arith, ◌⊎◌, length,
  length-append, count, Bool-cases, inl, inr, lt→ltb,
}
use freenote_probe.CString.{codes, c_string}
use freenote_probe.Cookie.{
  Cookie, valid_cookie, cookie_texts, cookies_to_s, cookie_sizes, cookies_strlen, cookies_strdup,
  are_ended,
}

length-cookie_texts : (cookies : List Cookie) → length (cookie_texts cookies) ≡ cookie_sizes cookies
unfolding cookie_texts cookie_sizes
length-cookie_texts [] = refl
length-cookie_texts (c ∷ cookies) = elim (Bool-cases (valid_cookie c)) [
  | inl e ↦ rw e (
      omega (
        arith,
        length-append {0} (c_string c.content ++ b';' ∷ b' ' ∷ []) (cookie_texts cookies),
        length-append {0} (c_string c.content) (b';' ∷ b' ' ∷ []),
        length-cookie_texts cookies,
      ))
  | inr e ↦ rw e (omega (arith, length-cookie_texts cookies))
]

length-cookies_to_s :
    (cookies : List Cookie) → length (cookies_to_s cookies) ≡ cookie_sizes cookies + 10
unfolding cookies_to_s
length-cookies_to_s cookies = omega (
  arith,
  length-append {0} (codes "Cookie: ") (cookie_texts cookies ++ 13 ∷ 10 ∷ []),
  length-append {0} (cookie_texts cookies) (13 ∷ 10 ∷ []),
  length-cookie_texts cookies,
)

-- The size is 0 exactly if no cookie is valid.
cookie_sizes-count :
    (cookies : List Cookie) → (cookie_sizes cookies == 0) ≡ (count valid_cookie cookies == 0)
unfolding cookie_sizes
cookie_sizes-count [] = refl
cookie_sizes-count (c ∷ cookies) = elim (Bool-cases (valid_cookie c)) [
  | inl e ↦ rw e (ground arith)
  | inr e ↦ rw e (ground (arith, cookie_sizes-count cookies))
]

-- If the content of a valid cookie has no terminator, `cookies_strdup` reads beyond it. Otherwise it
-- returns NULL if no cookie of the list is valid, and if one is valid, it returns the text of `cookies_to_s`, which fills the memory that `cookies_strlen` asks for, with its terminator.
pub cookies_strdup_lem :
    (cookies : List Cookie)
    → (are_ended cookies ≡ false) × (cookies_strdup cookies ≡ none)
      ⊎ (are_ended cookies ≡ true)
        × (count valid_cookie cookies ≡ 0)
        × (cookies_strdup cookies ≡ some none)
      ⊎ (are_ended cookies ≡ true)
        × (0 < count valid_cookie cookies)
        × (cookies_strdup cookies ≡ some (some (cookies_to_s cookies)))
        × (length (cookies_to_s cookies) + 1 ≡ cookies_strlen cookies)
unfolding cookies_strdup cookies_strlen
cookies_strdup_lem cookies = elim (Bool-cases (are_ended cookies)) [
  | inr open_end ↦ inl (open_end, rw open_end refl)
  | inl ended ↦ elim (Bool-cases (cookie_sizes cookies == 0)) [
    | inl e ↦ inr (inl (ended, ground (arith, e, cookie_sizes-count cookies), rw ended (rw e refl)))
    | inr e ↦
        let long = length-cookies_to_s cookies in
        let fits =
          lt→ltb (length (cookies_to_s cookies)) (cookie_sizes cookies + 11)
            (omega (arith, long)) in
        let some_size : (cookie_sizes cookies + 11 == 0) ≡ false = ground arith in
        inr (
          inr (
            ended,
            ground (arith, e, cookie_sizes-count cookies),
            rw ended (rw (e, some_size, fits) refl),
            rw e (omega (arith, long)),
          ))
  ]
]
