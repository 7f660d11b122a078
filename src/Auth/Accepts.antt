-- ===== src/Auth/Accepts.antt =====
-- The clients that the handshake of src/server/connection.rs lets in.
use shrimpwisp.Prelude.{ℕ, ◌<◌}
use shrimpwisp.Prelude.{◌≡◌, refl, ap, ◌∙◌, inl, inr}
use shrimpwisp.Prelude.{true, false, none, some}
use shrimpwisp.Prelude.{List, [], ◌∷◌, ◌++◌, arith}
use shrimpwisp.Prelude.{length, is_empty, All}
use shrimpwisp.Prelude.{length-append}
use shrimpwisp.Prelude.{take-length-append, drop-length-append}
use shrimpwisp.Prelude.Bytes.{Bytes, u32_from_le}
use shrimpwisp.Prelude.Bytes.{is_utf8}
use shrimpwisp.Prelude.{List-cases}
use shrimpwisp.Config.{ServerConfig}
use shrimpwisp.Protocol.{ExtensionEntry, info}
use shrimpwisp.Protocol.Build.{
  put_extensions, build_server_info_frame, build_initial_continue_frame,
}
use shrimpwisp.Protocol.Encoding.{IsExtension, encode}
use shrimpwisp.Protocol.Build.{
  build_server_info_frame, put_extensions, build_initial_continue_frame,
}
use shrimpwisp.Protocol.Encoding.{IsExtension, encode}
use shrimpwisp.Protocol.RoundTrip.{info_extensions}
use shrimpwisp.Auth.{find_user, Crypto, verify_password, verify_named, verify_users, verify_auth}
use shrimpwisp.Auth.Handshake.{
  Incoming, binary_frame, ping_frame, close_frame, other_frame, Written, message, accepted,
  payload_read, read_ws_binary_handshake, find_auth, info_major, authenticated, first_frame,
  after_read, handshake,
}
use shrimpwisp.Auth.Laws.{parse_client_info_extensions_lem}

-- A frame that the handshake reads past.
abbrev pub IsChatter : Incoming → Type 0
IsChatter (binary_frame b) = ⊥
IsChatter (ping_frame b) = Unit
IsChatter close_frame = ⊥
IsChatter other_frame = Unit

read-chatter :
    (chatter : List Incoming) (b : Bytes) (more : List Incoming)
    → All IsChatter chatter
    → (read_ws_binary_handshake (chatter ++ (binary_frame b ∷ more))).0 ≡ payload_read b
unfolding read_ws_binary_handshake
read-chatter [] b more c = refl
read-chatter (binary_frame p ∷ chatter) b more c = absurd c.0
read-chatter (close_frame ∷ chatter) b more c = absurd c.0
read-chatter (ping_frame p ∷ chatter) b more c = read-chatter chatter b more c.1
read-chatter (other_frame ∷ chatter) b more c = read-chatter chatter b more c.1

module _ (crypto : Crypto) (config : ServerConfig) where
  -- The credentials of a user, as a client sends them.
  abbrev pub named_payload : Bytes → Bytes → Bytes
  named_payload name password = length name ∷ (name ++ password)

  verify_auth-named :
      (name password stored : Bytes)
      → is_utf8 name ≡ true
      → 0 < length password
      → find_user name config.auth_users ≡ some stored
      → verify_password crypto password stored ≡ true
      → verify_auth crypto (named_payload name password) config ≡ true
  unfolding verify_auth verify_users verify_named
  verify_auth-named name password stored u hp f v = ground (
    arith,
    u,
    f,
    v,
    take-length-append name password,
    drop-length-append name password,
    length-append name password,
    users,
  )
    where
      users : is_empty config.auth_users ≡ false
      users = elim (List-cases config.auth_users) [
        | inl e ↦ absurd (unfold find_user in cc)
        | inr (x, rest, e) ↦ rw e refl
      ]

  info_major-encode :
      (minor : ℕ) (exts : List ExtensionEntry) → info_major (encode (info 0 2 minor exts)) ≡ some 2
  unfolding info_major encode u32_from_le
  info_major-encode minor exts = refl

  authenticated-encode :
      (minor : ℕ) (exts : List ExtensionEntry) (ext : ExtensionEntry)
      → All IsExtension exts
      → find_auth exts ≡ some ext
      → verify_auth crypto ext.payload config ≡ true
      → authenticated crypto config (encode (info 0 2 minor exts)) ≡ true
  unfolding authenticated encode
  authenticated-encode minor exts ext w f v =
      rw
        (
          parse_client_info_extensions_lem 5 0 0 0 0 2 minor (put_extensions exts),
          info_extensions exts w,
          f,
        )
        v

  first_frame-accepts :
      (payload : Bytes)
      → info_major payload ≡ some 2
      → authenticated crypto config payload ≡ true
      → first_frame crypto config payload
        ≡ (accepted none, message (build_initial_continue_frame config.buffer_size) ∷ [])
  unfolding first_frame
  first_frame-accepts payload m a = ground (arith, m, a)

  -- A v2 client with the password of a user gets in: after any number of pings and other frames
  -- that are neither binary nor a close, it sends an INFO frame of major version 2 whose first
  -- extension 0x02 holds the name and the password of a user, where the password is not empty,
  -- `verify_password` accepts it for what is stored, and the fields fit their widths. Then the
  -- handshake accepts it, puts no frame off, and ends with the credit for the first packets.
  pub handshake-Accepts :
      (chatter more : List Incoming) (minor : ℕ) (exts : List ExtensionEntry)
      (name password stored : Bytes)
      → All IsChatter chatter
      → All IsExtension exts
      → find_auth exts ≡ some (record { ext_id = 2; payload = named_payload name password })
      → is_utf8 name ≡ true
      → 0 < length password
      → find_user name config.auth_users ≡ some stored
      → verify_password crypto password stored ≡ true
      → ((handshake crypto config true
            (chatter ++ (binary_frame (encode (info 0 2 minor exts)) ∷ more))).0
          ≡ accepted none)
        × ((before : List Written) × ((handshake crypto config true
                (chatter ++ (binary_frame (encode (info 0 2 minor exts)) ∷ more))).1
              ≡ before ++ (message (build_initial_continue_frame config.buffer_size) ∷ [])))
  unfolding handshake after_read
  handshake-Accepts chatter more minor exts name password stored c w f u hp fu v =
      let frames = chatter ++ (binary_frame (encode (info 0 2 minor exts)) ∷ more) in
      let reads = read-chatter chatter (encode (info 0 2 minor exts)) more c in
      let accepts : first_frame crypto config (encode (info 0 2 minor exts))
          ≡ (accepted none, message (build_initial_continue_frame config.buffer_size) ∷ []) =
        first_frame-accepts (encode (info 0 2 minor exts)) (info_major-encode minor exts) (
          authenticated-encode minor exts _ w f
            (verify_auth-named name password stored u hp fu v)) in
      (
        ap (λ r. (after_read crypto config r).0) reads ∙ ap (λ p. p.0) accepts,
        (
          message (build_server_info_frame []) ∷ (read_ws_binary_handshake frames).1,
          ap
                (λ r.
                  message (build_server_info_frame [])
                  ∷ ((read_ws_binary_handshake frames).1 ++ (after_read crypto config r).1))
                reads
              ∙ ap
                  (λ p.
                    message (build_server_info_frame [])
                    ∷ ((read_ws_binary_handshake frames).1 ++ p.1))
                  accepts,
        ),
      )
