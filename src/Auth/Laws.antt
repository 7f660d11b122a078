-- ===== src/Auth/Laws.antt =====
-- The handshake and `verify_auth` of src/server/connection.rs: who is accepted.
use shrimpwisp.Prelude.{
  ℕ, zero, suc, ◌+◌, ◌≤◌, ◌≡◌, refl, sym, ap, ◌∙◌, ◌⊎◌, inl, inr, Bool, true, false, ◌&&◌, Option,
  none, some, List, [], ◌∷◌, ◌++◌, arith, leb, ◌==◌, Bool-cases, Option-cases, length, is_empty,
  take, drop, length-take, take-append-drop,
}
use shrimpwisp.Prelude.Bytes.{Bytes, u32_from_le, is_utf8}
use shrimpwisp.Config.{codes, ServerConfig, is_auth_required}
use shrimpwisp.Protocol.{ExtensionEntry, info, packet_info, wisp_version_major}
use shrimpwisp.Protocol.Frame.{
  parse_extensions_loop, parse_extensions, parse_info, parse_packet, parse_wisp_frame,
  parse_extensions_loop_fuel,
}
use shrimpwisp.Auth.{
  client_extensions_loop, parse_client_info_extensions, find_user, Crypto, check_stored,
  verify_password, verify_named, verify_default, verify_users, verify_auth,
}
use shrimpwisp.Auth.Handshake.{
  auth_ok, Incoming, accepted, Read, payload_read, closed_read, failed_read,
  read_ws_binary_handshake, find_auth, info_major, authenticated, first_frame, after_read,
  handshake,
}

loops_agree :
    (fuel : ℕ) (b : Bytes) (acc : List ExtensionEntry)
    → client_extensions_loop fuel b acc ≡ parse_extensions_loop fuel b acc
unfolding client_extensions_loop parse_extensions_loop
loops_agree zero b acc = refl
loops_agree (suc fuel) (i ∷ l0 ∷ l1 ∷ l2 ∷ l3 ∷ rest) acc =
    let n : ℕ = u32_from_le l0 l1 l2 l3 in
    rw (loops_agree fuel (drop n rest) (acc ++ (record { ext_id = i; payload = take n rest } ∷ [])))
loops_agree (suc fuel) [] acc = refl
loops_agree (suc fuel) (a ∷ []) acc = refl
loops_agree (suc fuel) (a ∷ b ∷ []) acc = refl
loops_agree (suc fuel) (a ∷ b ∷ c ∷ []) acc = refl
loops_agree (suc fuel) (a ∷ b ∷ c ∷ d ∷ []) acc = refl

-- On a payload with its header and version bytes, `parse_client_info_extensions` reads the
-- extensions that `parse_extensions` reads behind them.
pub parse_client_info_extensions_lem :
    (ty i0 i1 i2 i3 major minor : ℕ) (rest : Bytes)
    → parse_client_info_extensions (ty ∷ i0 ∷ i1 ∷ i2 ∷ i3 ∷ major ∷ minor ∷ rest)
      ≡ parse_extensions rest
unfolding parse_client_info_extensions parse_extensions parse_extensions_loop
parse_client_info_extensions_lem ty i0 i1 i2 i3 major minor [] = refl
parse_client_info_extensions_lem ty i0 i1 i2 i3 major minor (b ∷ bs) =
    let f : ℕ = length (ty ∷ i0 ∷ i1 ∷ i2 ∷ i3 ∷ major ∷ minor ∷ b ∷ bs) in
    let long : leb f 7 ≡ false = ground arith in
    rw long (
      loops_agree f (b ∷ bs) []
      ∙ parse_extensions_loop_fuel f (length (b ∷ bs)) (b ∷ bs) [] (omega arith) (omega arith))

-- What an accepted client has shown: a valid INFO frame of major version 2 whose extensions have
-- credentials, the first 0x02, that `verify_auth` accepts.
abbrev pub Proven : Crypto → ServerConfig → Bytes → Type 0
Proven crypto config payload =
    (minor : ℕ) × (exts : List ExtensionEntry) × (ext : ExtensionEntry) × (parse_wisp_frame payload
      ≡ some (info 0 2 minor exts))
    × (find_auth exts ≡ some ext)
    × (verify_auth crypto ext.payload config ≡ true)

module _ (crypto : Crypto) (config : ServerConfig) where
  -- An INFO frame that passes the three tests of the handshake.
  info_frame :
      (ty i0 i1 i2 i3 major minor : ℕ) (rest : Bytes)
      → ty ≡ packet_info
      → u32_from_le i0 i1 i2 i3 ≡ 0
      → parse_wisp_frame (ty ∷ i0 ∷ i1 ∷ i2 ∷ i3 ∷ major ∷ minor ∷ rest)
        ≡ some (info 0 major minor (parse_extensions rest))
  unfolding parse_wisp_frame parse_packet parse_info
  info_frame ty i0 i1 i2 i3 major minor rest e z = rw (e, z) refl

  proven :
      (payload : Bytes)
      → info_major payload ≡ some 2
      → authenticated crypto config payload ≡ true
      → Proven crypto config payload
  unfolding info_major authenticated
  proven (ty ∷ i0 ∷ i1 ∷ i2 ∷ i3 ∷ major ∷ minor ∷ rest) m a =
      elim (Option-cases (find_auth (parse_extensions rest))) [
        | inl e ↦ absurd (not_ok (ap find_auth exts ∙ e) a)
        | inr (ext, e) ↦ (
          minor,
          parse_extensions rest,
          ext,
          info_frame ty i0 i1 i2 i3 major minor rest (ground arith) (ground arith)
              ∙ ap (λ k. some (info 0 k minor (parse_extensions rest))) (ground arith),
          e,
          is_ok ext (ap find_auth exts ∙ e) a,
        )
      ]
    where
      found : Option ExtensionEntry
      found =
          find_auth (parse_client_info_extensions (ty ∷ i0 ∷ i1 ∷ i2 ∷ i3 ∷ major ∷ minor ∷ rest))

      exts :
          parse_client_info_extensions (ty ∷ i0 ∷ i1 ∷ i2 ∷ i3 ∷ major ∷ minor ∷ rest)
          ≡ parse_extensions rest
      exts = parse_client_info_extensions_lem ty i0 i1 i2 i3 major minor rest

      not_ok : found ≡ none → auth_ok crypto config found ≡ true → ⊥
      not_ok e h = ground (arith, e, h)

      is_ok :
          (ext : ExtensionEntry)
          → found ≡ some ext
          → auth_ok crypto config found ≡ true
          → verify_auth crypto ext.payload config ≡ true
      is_ok ext e h = sym (ap (auth_ok crypto config) e) ∙ h
  proven [] m a = cc
  proven (a0 ∷ []) m a = cc
  proven (a0 ∷ a1 ∷ []) m a = cc
  proven (a0 ∷ a1 ∷ a2 ∷ []) m a = cc
  proven (a0 ∷ a1 ∷ a2 ∷ a3 ∷ []) m a = cc
  proven (a0 ∷ a1 ∷ a2 ∷ a3 ∷ a4 ∷ []) m a = cc
  proven (a0 ∷ a1 ∷ a2 ∷ a3 ∷ a4 ∷ a5 ∷ []) m a = cc

  module _ (required : is_auth_required config ≡ true) where
    first_frame-Proven :
        (payload : Bytes) (d : Option Bytes)
        → (first_frame crypto config payload).0 ≡ accepted d
        → (d ≡ none) × Proven crypto config payload
    unfolding first_frame
    first_frame-Proven payload d = elim (Option-cases (info_major payload)) [
      | inl e ↦ rw (e, first_frame) (rw required (λ h. cc))
      | inr (major, e) ↦
          rw (e, first_frame)
            (elim (Bool-cases (major == wisp_version_major)) [
              | inr v ↦ rw v (λ h. cc)
              | inl v ↦ rw v (
                  rw required (elim (Bool-cases (authenticated crypto config payload)) [
                    | inr a ↦ rw a (λ h. cc)
                    | inl a ↦
                        rw a (λ h. (accepted_inj h, proven payload (e ∙ ap some (ground arith)) a))
                  ]))
            ])
    ]
      where
        accepted_inj : {o : Option Bytes} → accepted none ≡ accepted o → o ≡ none
        accepted_inj h = cc

    -- Where authentication is required, a handshake that accepts the client was a v2 handshake,
    -- no frame is put off, and the first binary message parses as an INFO frame for stream 0 of
    -- major version 2 whose first extension 0x02 has a payload that `verify_auth` accepts.
    pub handshake-Proven :
        (is_v2 : Bool) (frames : List Incoming) (d : Option Bytes)
        → (handshake crypto config is_v2 frames).0 ≡ accepted d
        → (is_v2 ≡ true)
          × (d ≡ none)
          × ((payload : Bytes) × ((read_ws_binary_handshake frames).0 ≡ payload_read payload)
              × Proven crypto config payload)
    unfolding handshake
    handshake-Proven false frames d = rw required (λ h. cc)
    handshake-Proven true frames d = λ h. by_read (read_ws_binary_handshake frames).0 refl h
      where
        by_read :
            (r : Read)
            → (read_ws_binary_handshake frames).0 ≡ r
            → (after_read crypto config r).0 ≡ accepted d
            → (true ≡ true)
              × (d ≡ none)
              × ((payload : Bytes) × ((read_ws_binary_handshake frames).0 ≡ payload_read payload)
                  × Proven crypto config payload)
        by_read (payload_read p) e h =
            let (n, k) = first_frame-Proven p d (unfold after_read in h) in (refl, n, (p, e, k))
        by_read closed_read e h = absurd (unfold after_read in cc)
        by_read failed_read e h = absurd (unfold after_read in cc)

-- A user of the configuration whose password `verify_password` accepts, and how the payload names
-- them.
abbrev pub Credentials : Crypto → ServerConfig → Bytes → Type 0
Credentials crypto config payload =
    (name : Bytes) × (password : Bytes) × (stored : Bytes) × (find_user name config.auth_users
      ≡ some stored)
    × (verify_password crypto password stored ≡ true)
    × ((payload ≡ length name ∷ (name ++ password))
        ⊎ ((name ≡ codes "default") × (payload ≡ password)))

module _ (crypto : Crypto) (config : ServerConfig) where
  stored_ok :
      (name password payload : Bytes)
      → ((payload ≡ length name ∷ (name ++ password))
          ⊎ ((name ≡ codes "default") × (payload ≡ password)))
      → check_stored crypto password (find_user name config.auth_users) ≡ true
      → Credentials crypto config payload
  stored_ok name password payload how = elim (Option-cases (find_user name config.auth_users)) [
    | inl e ↦ rw e (λ h. cc)
    | inr (stored, e) ↦ rw e (λ h. (name, password, stored, e, h, how))
  ]

  named_ok :
      (n : ℕ) (rest : Bytes)
      → n ≤ length rest
      → verify_named crypto n rest config ≡ true
      → Credentials crypto config (n ∷ rest)
  unfolding verify_named
  named_ok n rest le = elim (Bool-cases (is_utf8 (take n rest))) [
    | inr u ↦ rw u (λ h. cc)
    | inl u ↦ rw u λ h.
        stored_ok (take n rest) (drop n rest) (n ∷ rest)
          (inl (
            ap (λ k. k ∷ rest) (omega (arith, length-take n rest))
            ∙ ap (λ r. length (take n rest) ∷ r) (sym (take-append-drop n rest))))
          h
  ]

  default_ok :
      (payload : Bytes)
      → verify_default crypto payload config ≡ true
      → Credentials crypto config payload
  unfolding verify_default
  default_ok payload h = stored_ok (codes "default") payload payload (inr (refl, refl)) h

  users_ok :
      (payload : Bytes)
      → verify_users crypto payload config ≡ true
      → Credentials crypto config payload
  unfolding verify_users
  users_ok [] = λ h. default_ok [] h
  users_ok (n ∷ rest) =
      elim (Bool-cases (leb 2 (length (n ∷ rest)) && leb (1 + n + 1) (length (n ∷ rest)))) [
        | inl e ↦ rw e (λ h. named_ok n rest (ground arith) h)
        | inr e ↦ rw e (λ h. default_ok (n ∷ rest) h)
      ]

  -- Where the configuration has users, `verify_auth` accepts a payload only if a user is stored
  -- under some name with a value for which `verify_password` accepts the password, and the
  -- payload is the length of that name, the name and the password, or is the password and the
  -- name is "default".
  pub verify_auth-Credentials :
      (payload : Bytes)
      → is_empty config.auth_users ≡ false
      → verify_auth crypto payload config ≡ true
      → Credentials crypto config payload
  unfolding verify_auth
  verify_auth-Credentials payload some_users = rw some_users (λ h. users_ok payload h)
