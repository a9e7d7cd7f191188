-- ===== src/Options/Checked.antt =====
-- src/options.c: the values that `parse_options` leaves.
use freenote_probe.Base.{
  subst, ℕ, ◌≤◌, true, false, some, List, [], ◌∷◌, map, ◌≡◌, ◌⊎◌, inl, inr, refl, ◌∙◌, arith,
  Bool-cases,
}
use freenote_probe.Base.Int.{ℤ, pos, ltb_ℤ, eq_ℤ}
use freenote_probe.CString.{Bytes, codes, atoi, starts_with, isspace}
use freenote_probe.Options.{Options, returns, Always, matches, int_matches, read_int_opt}
use freenote_probe.Options.Rows.{CliOpt, Build, cli_opts}
use freenote_probe.Options.CommandLine.{
  minimum_interval, no_keepalive, parse_options, read_cli_opts,
}
use freenote_probe.Options.Arguments.{read_cli_opts-keys}
use freenote_probe.Options.Search.{hits_from}
use freenote_probe.Options.Values.{key, IsTable, setting, read_int_at, set_at}

-- The integer option with this name is read, from wherever the static variable stands, as `n`.
abbrev pub ReadsInt : Options → Bytes → ℤ → Type 0
ReadsInt o opt n = (o2 : Options) × (read_int_opt o opt ≡ returns (n, o2))

module _ (build : Build) where
  interval_hits : hits_from (matches (codes "interval")) 0 (cli_opts build) ≡ 0 ∷ []
  unfolding matches starts_with cli_opts
  interval_hits = refl

  keepalive_hits : hits_from (matches (codes "keepalive")) 0 (cli_opts build) ≡ 10 ∷ []
  unfolding matches starts_with cli_opts
  keepalive_hits = refl

  interval_int :
      (o : Options)
      → IsTable build o
      → (v : Bytes) × (setting o 0 ≡ some v)
        × (read_int_opt o (codes "interval") ≡ returns (atoi v, record o { int_cursor = 0 }))
  unfolding int_matches matches starts_with cli_opts
  interval_int o h = read_int_at build o (codes "interval") 0 h refl refl refl

  limit_int :
      (o : Options)
      → IsTable build o
      → (v : Bytes) × (setting o 8 ≡ some v)
        × (read_int_opt o (codes "limit-runs") ≡ returns (atoi v, record o { int_cursor = 8 }))
  unfolding int_matches matches starts_with cli_opts
  limit_int o h = read_int_at build o (codes "limit-runs") 8 h refl refl refl

  keepalive_int :
      (o : Options)
      → IsTable build o
      → (v : Bytes) × (setting o 10 ≡ some v)
        × (read_int_opt o (codes "keepalive") ≡ returns (atoi v, record o { int_cursor = 10 }))
  unfolding int_matches matches starts_with cli_opts
  keepalive_int o h = read_int_at build o (codes "keepalive") 10 h refl refl refl

  cursor_moved :
      (o : Options) (k : ℕ) → k ≤ 20 → IsTable build o → IsTable build (record o { int_cursor = k })
  cursor_moved o k small h = record {
    keys = h.keys;
    int_bound = small;
    valid_bound = h.valid_bound;
  }

  abbrev AtLeast15 : Options → Type 0
  AtLeast15 o = (v : Bytes) × (setting o 0 ≡ some v) × (ltb_ℤ (atoi v) (pos 15) ≡ false)

  minimum_interval_lem :
      (o : Options)
      → IsTable build o
      → (o2 : Options) × (minimum_interval o ≡ returns o2) × IsTable build o2 × AtLeast15 o2
  unfolding minimum_interval isspace
  minimum_interval_lem o h =
      let (v, now, read) = interval_int o h in
      let o1 : Options = record o { int_cursor = 0 } in
      let (o2, done, table, value, others) =
        set_at build o1 (codes "interval") (codes "15") 0 (cursor_moved o 0 (omega arith) h)
          interval_hits (omega arith) in
      elim (Bool-cases (ltb_ℤ (atoi v) (pos 15))) [
        | inl t ↦ (o2, rw (read, t) done, table, (codes "15", value, unfold atoi in refl))
        | inr t ↦ (o1, rw (read, t) refl, cursor_moved o 0 (omega arith) h, (v, now, t))
      ]

  -- No run limit, or no restart.
  abbrev Quiet : Options → Type 0
  Quiet o =
      (v w : Bytes) × (setting o 8 ≡ some v)
      × (setting o 10 ≡ some w)
      × ((eq_ℤ (atoi v) (pos 0) ≡ true) ⊎ (eq_ℤ (atoi w) (pos 0) ≡ true))

  no_keepalive_lem :
      (o : Options)
      → IsTable build o
      → AtLeast15 o
      → (o2 : Options) × (no_keepalive o ≡ returns o2) × IsTable build o2 × AtLeast15 o2 × Quiet o2
  unfolding no_keepalive isspace
  no_keepalive_lem o h (i, first, enough) =
      let (v, now, read) = limit_int o h in
      let o1 : Options = record o { int_cursor = 8 } in
      let h1 = cursor_moved o 8 (omega arith) h in
      let (w, now2, read2) = keepalive_int o1 h1 in
      let o2 : Options = record o { int_cursor = 10 } in
      let h2 = cursor_moved o 10 (omega arith) h in
      let (o3, done, table, value, others) =
        set_at build o2 (codes "keepalive") (codes "0") 10 h2 keepalive_hits (omega arith) in
      elim (Bool-cases (eq_ℤ (atoi v) (pos 0))) [
        | inl t ↦ (o1, rw (read, t) refl, h1, (i, first, enough), (v, w, now, now2, inl t))
        | inr t ↦ elim (Bool-cases (eq_ℤ (atoi w) (pos 0))) [
          | inl u ↦
              (o2, rw (read, t, read2, u) refl, h2, (i, first, enough), (v, w, now, now2, inr u))
          | inr u ↦ (
            o3,
            rw (read, t, read2, u) done,
            table,
            (i, others 0 (λ e. omega (arith, e)) ∙ first, enough),
            (
              v,
              codes "0",
              others 8 (λ e. omega (arith, e)) ∙ now,
              value,
              inr (unfold atoi in refl),
            ),
          )
        ]
      ]

  interval_read :
      (o : Options)
      → IsTable build o
      → AtLeast15 o
      → (n : ℤ) × ReadsInt o (codes "interval") n × (ltb_ℤ n (pos 15) ≡ false)
  interval_read o h (i, first, enough) =
      let (v, now, read) = interval_int o h in
      let same : i ≡ v = cc in
      (atoi v, (_, read), subst (λ s. ltb_ℤ (atoi s) (pos 15) ≡ false) same enough)

  keepalive_read :
      (o : Options)
      → IsTable build o
      → Quiet o
      → (l k : ℤ) × ReadsInt o (codes "limit-runs") l
        × ReadsInt o (codes "keepalive") k
        × ((eq_ℤ l (pos 0) ≡ true) ⊎ (eq_ℤ k (pos 0) ≡ true))
  keepalive_read o h (v, w, now, now2, one) =
      let (v2, at, read) = limit_int o h in
      let (w2, at2, read2) = keepalive_int o h in
      let same : v ≡ v2 = cc in
      let same2 : w ≡ w2 = cc in
      (
        atoi v2,
        atoi w2,
        (_, read),
        (_, read2),
        subst
            (λ (p : Bytes × Bytes).
              (eq_ℤ (atoi p.0) (pos 0) ≡ true) ⊎ (eq_ℤ (atoi p.1) (pos 0) ≡ true))
            (let e : (v, w) ≡ (v2, w2) = rw (same, same2) refl in e) one,
      )

  -- For the program's table, if reading the command line returns, then `parse_options` returns its
  -- result, and afterwards the interval is at least 15, and there is no limit of runs or no restart:
  -- each as `read_int_opt` reads it.
  pub parse_options_lem :
      (o : Options) (args : List Bytes) (r : ℤ) (rows : List CliOpt)
      → IsTable build o
      → read_cli_opts false args o.rows ≡ returns (r, rows)
      → (o2 : Options) × (parse_options o args ≡ returns (r, o2))
        × IsTable build o2
        × ((n : ℤ) × ReadsInt o2 (codes "interval") n × (ltb_ℤ n (pos 15) ≡ false))
        × ((l k : ℤ) × ReadsInt o2 (codes "limit-runs") l
            × ReadsInt o2 (codes "keepalive") k
            × ((eq_ℤ l (pos 0) ≡ true) ⊎ (eq_ℤ k (pos 0) ≡ true)))
  unfolding parse_options
  parse_options_lem o args r rows h read =
      let same = read_cli_opts-keys false args o.rows in
      let table : IsTable build (record o { rows = rows }) = record {
        keys =
            subst (Always (λ (p : ℤ × List CliOpt). map key p.1 ≡ map key o.rows)) read same
            ∙ h.keys;
        int_bound = h.int_bound;
        valid_bound = h.valid_bound;
      } in
      let (o1, ran1, h1, least1) = minimum_interval_lem (record o { rows = rows }) table in
      let (o2, ran2, h2, least2, quiet) = no_keepalive_lem o1 h1 least1 in
      (o2, rw (read, ran1, ran2) refl, h2, interval_read o2 h2 least2, keepalive_read o2 h2 quiet)
