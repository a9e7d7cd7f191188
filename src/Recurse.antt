-- ===== src/Recurse.antt =====
-- src/net-modules/http-recurse.c: `http_recurse`, which fetches the components of a page. The
-- requests and the extraction of URLs are a parameter; a call takes the state of the outside world
-- and returns the next one.
pub mod Bounds
use freenote_probe.Base.{
  ℕ, zero, suc, ◌+◌, Bool, true, false, not, ◌==◌, Option, none, some, List, [], ◌∷◌, if◌then◌else◌,
}
use freenote_probe.Base.Int.{ℤ, pos, eq_ℤ}
use freenote_probe.CString.{Bytes}
use freenote_probe.Task.Types.{Code, ok, fail, inaddr_none}

-- The size of the array of extracted URLs.
abbrev pub max_total_urls : ℕ
max_total_urls = 32

-- The calls, over a request type `R` and the outside world `W`.
pub record Pages (R W : Type 0) : Type 0 where
  pub status : R → ℤ
  pub is_html : R → Bool
  pub body : R → Option Bytes
  pub addr : R → ℕ
  pub extract_urls : ℕ → Bytes → Bytes → List Bytes
  pub url2http : Bytes → W → Option R × W
  pub http_get : R → W → Code × R × W

module _ {R W : Type 0} (net : Pages R W) where
  -- A page counts with its own components if it was fetched.
  abbrev pub follow : (R → Bytes → W → ℕ × W) → Code → R → Bytes → W → ℕ × W
  follow recurse ok sub url w = recurse sub url w
  follow recurse fail sub url w = (0, w)

  -- One URL of the page: it counts if its host resolves and it can be fetched.
  unfoldable pub visit_url : (R → Bytes → W → ℕ × W) → Bytes → W → ℕ × W
  visit_url recurse url w =
      let (req, w1) = net.url2http url w in
      elim req [
        | none ↦ (0, w1)
        | some sub ↦
            let (r, got, w2) = net.http_get sub w1 in
            if net.addr sub == inaddr_none then (0, w1) else follow recurse r got url w2
      ]

  -- The loop over the URLs, which adds up the components.
  unfoldable pub visit_urls : (R → Bytes → W → ℕ × W) → List Bytes → W → ℕ × W
  unfolding visit_url
  visit_urls recurse [] w = (0, w)
  visit_urls recurse (url ∷ urls) w =
      let (n, w1) = visit_url recurse url w in
      let (m, w2) = visit_urls recurse urls w1 in (n + m, w2)

  -- `http_recurse` for a depth that is not negative.
  unfoldable pub http_recurse : ℕ → R → Bytes → W → ℕ × W
  unfolding visit_urls
  http_recurse zero req url w = if not (eq_ℤ (net.status req) (pos 200)) then (0, w) else (1, w)
  http_recurse (suc depth) req url w =
      if not (eq_ℤ (net.status req) (pos 200))
      then (0, w)
      else if not (net.is_html req)
      then (1, w)
      else elim (net.body req) [
        | none ↦ (0, w)
        | some body ↦
            let (components, w') =
              visit_urls (http_recurse depth) (net.extract_urls max_total_urls body url) w in
            (1 + components, w')
      ]
