-- ===== src/Upgrade/Headers.antt =====
-- The headers that src/ws/upgrade.rs captures, and the client's address that
-- src/server/connection.rs takes from them.
use shrimpwisp.Prelude.{◌≡◌, refl, sym, ap, subst, ◌∙◌, inl, inr}
use shrimpwisp.Prelude.{Bool, true, false, ◌||◌, Option, none, some}
use shrimpwisp.Prelude.{List, [], ◌∷◌, ◌++◌, append_assoc, arith}
use shrimpwisp.Prelude.{if◌then◌else◌, Bool-cases, Option-cases}
use shrimpwisp.Prelude.Bytes.{Bytes}
use shrimpwisp.Prelude.Bytes.{bytes_eq, bytes_eq→eq, bytes_eq_refl}
use shrimpwisp.Prelude.Bytes.{to_ascii_lowercase}
use shrimpwisp.Config.{ServerConfig}
use shrimpwisp.Upgrade.{Http, capture_named, capture_headers, captured}
use shrimpwisp.Net.{IpAddr}
use shrimpwisp.Security.RealIp.{leftmost, scan_headers, extract_real_ip, client_ip}

module _ (http : Http) (parse_ip : Bytes → Option IpAddr) where
  -- All headers whose value is text.
  unfoldable pub readable : List (Bytes × Bytes) → List (Bytes × Bytes)
  readable [] = []
  readable ((name, value) ∷ more) = elim (http.to_str value) [
    | none ↦ readable more
    | some v ↦ (name, v) ∷ readable more
  ]

  abbrev first : Option IpAddr → Option IpAddr → Option IpAddr
  first none o = o
  first (some ip) o = some ip

  abbrev only_if : Bool → Option IpAddr → Option IpAddr
  only_if b o = if b then o else none

  only_if-true : (b : Bool) (o : Option IpAddr) → b ≡ true → only_if b o ≡ o
  only_if-true b o e = rw e refl

  only_if-false : (b : Bool) (o : Option IpAddr) → b ≡ false → only_if b o ≡ none
  only_if-false b o e = rw e refl

  scan-append :
      (t : Bytes) (xs ys : List (Bytes × Bytes))
      → scan_headers parse_ip t (xs ++ ys)
        ≡ first (scan_headers parse_ip t xs) (scan_headers parse_ip t ys)
  unfolding scan_headers
  scan-append t [] ys = refl
  scan-append t ((name, value) ∷ xs) ys = ground (arith, scan-append t xs ys)

  readable-skip :
      (name value : Bytes) (more : List (Bytes × Bytes))
      → http.to_str value ≡ none
      → readable ((name, value) ∷ more) ≡ readable more
  unfolding readable
  readable-skip name value more n = rw (n, readable) refl

  readable-keep :
      (name value v : Bytes) (more : List (Bytes × Bytes))
      → http.to_str value ≡ some v
      → readable ((name, value) ∷ more) ≡ (name, v) ∷ readable more
  unfolding readable
  readable-keep name value v more n = rw (n, readable) refl

  scan-miss :
      (t name v : Bytes) (more : List (Bytes × Bytes))
      → bytes_eq (to_ascii_lowercase name) t ≡ false
      → scan_headers parse_ip t ((name, v) ∷ more) ≡ scan_headers parse_ip t more
  unfolding scan_headers
  scan-miss t name v more e = rw e refl

  scan-hit :
      (t name v : Bytes) (more : List (Bytes × Bytes))
      → bytes_eq (to_ascii_lowercase name) t ≡ true
      → scan_headers parse_ip t ((name, v) ∷ more)
        ≡ first (parse_ip (leftmost v)) (scan_headers parse_ip t more)
  unfolding scan_headers
  scan-hit t name v more e = ground (arith, e)

  -- A header under the name `u`, with the rest of the headers.
  scan-same :
      (t u name v : Bytes) (kept more : List (Bytes × Bytes))
      → bytes_eq (to_ascii_lowercase name) u ≡ true
      → scan_headers parse_ip t kept ≡ only_if (bytes_eq u t) (scan_headers parse_ip t more)
      → scan_headers parse_ip t ((name, v) ∷ kept)
        ≡ only_if (bytes_eq u t) (scan_headers parse_ip t ((name, v) ∷ more))
  scan-same t u name v kept more same rest =
      let same' = bytes_eq→eq (to_ascii_lowercase name) u same in
      elim (Bool-cases (bytes_eq u t)) [
        | inl e ↦
            let hits = ap (λ x. bytes_eq x t) same' ∙ e in
            scan-hit t name v kept hits
            ∙ (ap (first (parse_ip (leftmost v)))
                  (rest ∙ only_if-true (bytes_eq u t) (scan_headers parse_ip t more) e)
                ∙ (sym (scan-hit t name v more hits)
                    ∙ sym (
                        only_if-true (bytes_eq u t) (scan_headers parse_ip t ((name, v) ∷ more))
                          e)))
        | inr e ↦ scan-miss t name v kept (ap (λ x. bytes_eq x t) same' ∙ e) ∙ (rest ∙ gone e)
      ]
    where
      gone :
          bytes_eq u t ≡ false
          → only_if (bytes_eq u t) (scan_headers parse_ip t more)
            ≡ only_if (bytes_eq u t) (scan_headers parse_ip t ((name, v) ∷ more))
      gone e =
          only_if-false (bytes_eq u t) (scan_headers parse_ip t more) e
          ∙ sym (only_if-false (bytes_eq u t) (scan_headers parse_ip t ((name, v) ∷ more)) e)

  -- A header under another name is not captured, and is not looked at.
  scan-other :
      (t u name v : Bytes) (kept more : List (Bytes × Bytes))
      → bytes_eq (to_ascii_lowercase name) u ≡ false
      → scan_headers parse_ip t kept ≡ only_if (bytes_eq u t) (scan_headers parse_ip t more)
      → scan_headers parse_ip t kept
        ≡ only_if (bytes_eq u t) (scan_headers parse_ip t ((name, v) ∷ more))
  scan-other t u name v kept more other rest = elim (Bool-cases (bytes_eq u t)) [
    | inl e ↦
        rest
        ∙ ap (only_if (bytes_eq u t)) (
            sym (
              scan-miss t name v more
                (ap (bytes_eq (to_ascii_lowercase name)) (sym (bytes_eq→eq u t e)) ∙ other)))
    | inr e ↦ rest ∙ gone e
  ]
    where
      gone :
          bytes_eq u t ≡ false
          → only_if (bytes_eq u t) (scan_headers parse_ip t more)
            ≡ only_if (bytes_eq u t) (scan_headers parse_ip t ((name, v) ∷ more))
      gone e =
          only_if-false (bytes_eq u t) (scan_headers parse_ip t more) e
          ∙ sym (only_if-false (bytes_eq u t) (scan_headers parse_ip t ((name, v) ∷ more)) e)

  scan-capture_named :
      (t u : Bytes) (headers : List (Bytes × Bytes))
      → scan_headers parse_ip t (capture_named http u headers)
        ≡ only_if (bytes_eq u t) (scan_headers parse_ip t (readable headers))
  unfolding capture_named
  scan-capture_named t u [] = unfold scan_headers readable in ground arith
  scan-capture_named t u ((name, value) ∷ more) =
      let rest = scan-capture_named t u more in
      elim (Option-cases (http.to_str value)) [
        | inl n ↦ elim (Bool-cases (bytes_eq (to_ascii_lowercase name) u)) [
          | inl same ↦ rw (same, n, readable-skip name value more n) rest
          | inr other ↦ rw (other, readable-skip name value more n) rest
        ]
        | inr (v, n) ↦ elim (Bool-cases (bytes_eq (to_ascii_lowercase name) u)) [
          | inl same ↦
              rw (same, n, readable-keep name value v more n)
                (scan-same t u name v _ (readable more) same rest)
          | inr other ↦
              rw (other, readable-keep name value v more n)
                (scan-other t u name v _ (readable more) other rest)
        ]
      ]

  -- Whether one of the names is `t`, in lower case.
  unfoldable named : Bytes → List Bytes → Bool
  named t [] = false
  named t (target ∷ targets) = bytes_eq (to_ascii_lowercase target) t || named t targets

  first_only :
      (a b : Bool) (o : Option IpAddr) → first (only_if a o) (only_if b o) ≡ only_if (a || b) o
  first_only true true none = refl
  first_only true true (some ip) = refl
  first_only true false none = refl
  first_only true false (some ip) = refl
  first_only false b o = refl

  scan-capture_headers :
      (t : Bytes) (targets : List Bytes) (headers : List (Bytes × Bytes))
      → scan_headers parse_ip t (capture_headers http targets headers)
        ≡ only_if (named t targets) (scan_headers parse_ip t (readable headers))
  unfolding capture_headers named
  scan-capture_headers t [] headers = unfold scan_headers in refl
  scan-capture_headers t (target ∷ targets) headers =
      scan-append t (capture_named http (to_ascii_lowercase target) headers)
        (capture_headers http targets headers)
      ∙ (cc (
        scan-capture_named t (to_ascii_lowercase target) headers,
        scan-capture_headers t targets headers,
      )
          ∙ first_only (bytes_eq (to_ascii_lowercase target) t) (named t targets)
              (scan_headers parse_ip t (readable headers)))

  named-append :
      (target : Bytes) (before after : List Bytes)
      → named (to_ascii_lowercase target) (before ++ (target ∷ after)) ≡ true
  unfolding named
  named-append target [] after = ground (arith, bytes_eq_refl (to_ascii_lowercase target))
  named-append target (b ∷ before) after = ground (arith, named-append target before after)

  extract-cons :
      (target : Bytes) (targets : List Bytes) (headers : List (Bytes × Bytes))
      → extract_real_ip parse_ip headers (target ∷ targets)
        ≡ first
            (scan_headers parse_ip (to_ascii_lowercase target) headers)
            (extract_real_ip parse_ip headers targets)
  unfolding extract_real_ip
  extract-cons target targets headers = ground arith

  extract-captured :
      (before targets : List Bytes) (headers : List (Bytes × Bytes))
      → extract_real_ip parse_ip (capture_headers http (before ++ targets) headers) targets
        ≡ extract_real_ip parse_ip (readable headers) targets
  extract-captured before [] headers = unfold extract_real_ip in refl
  extract-captured before (target ∷ targets) headers =
      let t = to_ascii_lowercase target in
      let all = capture_headers http (before ++ (target ∷ targets)) headers in
      let found : scan_headers parse_ip t all ≡ scan_headers parse_ip t (readable headers) =
        scan-capture_headers t (before ++ (target ∷ targets)) headers
        ∙ only_if-true (named t (before ++ (target ∷ targets))) _
            (named-append target before targets) in
      let rest : extract_real_ip parse_ip all targets
          ≡ extract_real_ip parse_ip (readable headers) targets =
        subst
          (λ ts.
            extract_real_ip parse_ip (capture_headers http ts headers) targets
            ≡ extract_real_ip parse_ip (readable headers) targets)
          (append_assoc before (target ∷ []) targets)
          (extract-captured (before ++ (target ∷ [])) targets headers) in
      extract-cons target targets all
      ∙ (cc (found, rest) ∙ sym (extract-cons target targets (readable headers)))

  -- The address of the client is the one that all readable headers of the request give: capturing
  -- only the headers that the configuration names, whatever the case of the names and whichever
  -- names the configuration repeats, loses nothing.
  pub client_ip-captured :
      (c : ServerConfig) (peer : IpAddr) (nets : List (IpAddr → Bool)) (headers : http.Headers)
      → client_ip parse_ip c peer nets (captured http c headers)
        ≡ client_ip parse_ip c peer nets (readable (http.entries headers))
  unfolding client_ip captured
  client_ip-captured c peer nets headers =
      let same = extract-captured [] c.real_ip_headers (http.entries headers) in
      elim (Bool-cases c.real_ip_enabled) [ inl e ↦ rw (e, same) refl | inr e ↦ rw e refl ]
