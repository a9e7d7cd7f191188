-- ===== src/Recurse/Bounds.antt =====
-- How many components `http_recurse` of src/net-modules/http-recurse.c can count.
use freenote_probe.Base.{
  ℕ, zero, suc, ◌+◌, ◌*◌, ◌≤◌, ◌==◌, List, [], ◌∷◌, arith, length, Bool-cases, Option-cases, inl,
  inr,
}
use freenote_probe.Base.Int.{pos, eq_ℤ}
use freenote_probe.CString.{Bytes}
use freenote_probe.Task.Types.{Code, ok, fail, inaddr_none}
use freenote_probe.Recurse.{Pages, max_total_urls, follow, visit_url, visit_urls, http_recurse}

-- The page itself, and up to 32 pages of a smaller depth.
abbrev pub most : ℕ → ℕ
most zero = 1
most (suc depth) = 1 + max_total_urls * most depth

-- `b` for each URL.
abbrev each : ℕ → List Bytes → ℕ
each b [] = 0
each b (u ∷ us) = b + each b us

each_le : (b : ℕ) (us : List Bytes) (n : ℕ) → length us ≤ n → each b us ≤ n * b
each_le b [] n h = omega arith
each_le b (u ∷ us) zero h = absurd (omega arith)
each_le b (u ∷ us) (suc n) h = omega (arith, each_le b us n (omega arith))

module _ {R W : Type 0} (net : Pages R W) (recurse : R → Bytes → W → ℕ × W) (b : ℕ)
    (below : (req : R) (url : Bytes) (w : W) → (recurse req url w).0 ≤ b) where
  visit_url_le : (url : Bytes) (w : W) → (visit_url net recurse url w).0 ≤ b
  unfolding visit_url
  visit_url_le url w = elim (Option-cases (net.url2http url w).0) [
    | inl missing ↦ rw (missing, visit_url) (omega arith)
    | inr (sub, there) ↦
        let got = net.http_get sub (net.url2http url w).1 in
        elim (Bool-cases (net.addr sub == inaddr_none)) [
          | inl unresolved ↦ rw (there, visit_url, unresolved) (omega arith)
          | inr resolved ↦ rw (there, visit_url, resolved) (fetched got.0 got.1 got.2)
        ]
  ]
    where
      fetched : (r : Code) (req : R) (w : W) → (follow net recurse r req url w).0 ≤ b
      fetched ok req w = below req url w
      fetched fail req w = omega arith

  visit_urls_le : (urls : List Bytes) (w : W) → (visit_urls net recurse urls w).0 ≤ each b urls
  unfolding visit_urls
  visit_urls_le [] w = omega arith
  visit_urls_le (url ∷ urls) w =
      omega (arith, visit_url_le url w, visit_urls_le urls (visit_url net recurse url w).1)

-- With at most 32 URLs from a page, `http_recurse` counts at most 1 component at depth 0, and at each
-- further depth at most one more than 32 times as many as at the depth below.
pub http_recurse_le :
    {R W : Type 0} (net : Pages R W) (depth : ℕ) (req : R) (url : Bytes) (w : W)
    → ((n : ℕ) (body base : Bytes) → length (net.extract_urls n body base) ≤ n)
    → (http_recurse net depth req url w).0 ≤ most depth
unfolding http_recurse
http_recurse_le net zero req url w few = elim (Bool-cases (eq_ℤ (net.status req) (pos 200))) [
  | inl good ↦ rw good (omega arith)
  | inr bad ↦ rw bad (omega arith)
]
http_recurse_le net (suc depth) req url w few =
    elim (Bool-cases (eq_ℤ (net.status req) (pos 200))) [
      | inr bad ↦ rw bad (omega arith)
      | inl good ↦ elim (Bool-cases (net.is_html req)) [
        | inr plain ↦ rw (good, plain) (omega arith)
        | inl html ↦ elim (Option-cases (net.body req)) [
          | inl missing ↦ rw (good, html, http_recurse, missing) (omega arith)
          | inr (body, there) ↦
              let urls = net.extract_urls max_total_urls body url in
              let sum =
                visit_urls_le net (http_recurse net depth) (most depth)
                  (λ req' url' w'. http_recurse_le net depth req' url' w' few) urls w in
              rw (good, html, http_recurse, there)
                (omega (
                  arith,
                  sum,
                  each_le (most depth) urls max_total_urls (few max_total_urls body url),
                ))
        ]
      ]
    ]
