-- ===== src/Wire/Writer.antt =====
-- The writers of src/server/connection.rs to the client's socket. The socket is tokio's
-- `OwnedWriteHalf`, a parameter with the results that it may return.
use shrimpwisp.Prelude.{ℕ, zero, suc, ◌+◌, ◌-◌, ◌≤◌}
use shrimpwisp.Prelude.{◌≡◌}
use shrimpwisp.Prelude.{Bool, true, false, Option, none, some}
use shrimpwisp.Prelude.{List, [], ◌∷◌, ◌++◌}
use shrimpwisp.Prelude.{ltb, leb, ◌==◌, if◌then◌else◌}
use shrimpwisp.Prelude.{length, take, drop, concat}
use shrimpwisp.Prelude.Bytes.{Bytes}
use shrimpwisp.Wire.{ws_binary_header}

-- `write_all` answers whether it succeeded, `write_vectored` how many bytes went out, or an error.
pub record ClientWriter : Type 1 where
  pub Sock : Type 0
  pub write_all : Sock → Bytes → Bool × Sock
  pub write_vectored : Sock → List Bytes → Option ℕ × Sock
  pub sent : Sock → Bytes

-- The documented behaviour: a successful `write_all` sends everything, and a successful
-- `write_vectored` a first part, of the length that it returns.
pub record IsWriter (w : ClientWriter) : Type 0 where
  pub write_all_sent :
      (s : w.Sock) (b : Bytes)
      → (w.write_all s b).0 ≡ true
      → w.sent (w.write_all s b).1 ≡ w.sent s ++ b
  pub vectored_bound :
      (s : w.Sock) (bs : List Bytes) (n : ℕ)
      → (w.write_vectored s bs).0 ≡ some n
      → n ≤ length (concat bs)
  pub vectored_sent :
      (s : w.Sock) (bs : List Bytes) (n : ℕ)
      → (w.write_vectored s bs).0 ≡ some n
      → w.sent (w.write_vectored s bs).1 ≡ w.sent s ++ take n (concat bs)

-- `std::io::Result<()>`; `stuck` is no Rust value: a loop ran out of fuel.
pub data Status : Type 0 where
  done failed stuck : Status

abbrev pub of_bool : Bool → Status
of_bool true = done
of_bool false = failed

-- `frames.chunks(size)`, of size at least 1.
unfoldable pub chunks {ℓ} : {A : Type ℓ} → ℕ → ℕ → List A → List (List A)
chunks size zero xs = []
chunks size (suc fuel) [] = []
chunks size (suc fuel) (x ∷ xs) = take size (x ∷ xs) ∷ chunks size fuel (drop size (x ∷ xs))

-- The `for frame in frames` loop that finds the frames that went out whole: how many bytes they are,
-- and the frames from the first one that did not.
unfoldable pub skip_written : ℕ → ℕ → List Bytes → ℕ × List Bytes
skip_written n consumed [] = (consumed, [])
skip_written n consumed (f ∷ fs) =
    let rest = skip_written n (consumed + length f) fs in
    if leb (consumed + length f) n then rest else (consumed, f ∷ fs)

module _ (w : ClientWriter) where
  open w use {Sock, write_all, write_vectored}

  abbrev pub write_status : Sock → Bytes → Status × Sock
  write_status s b = (of_bool (write_all s b).0, (write_all s b).1)

  -- The rest of the payload, after the header is out.
  unfoldable pub finish_payload : Bytes → Bytes → ℕ → Sock → Status × Sock
  finish_payload hdr payload n s =
      if ltb n (length hdr + length payload)
      then write_status s (drop (n - length hdr) payload)
      else (done, s)

  -- The `while n < hdr_len` loop. Each round sends a byte of the header at least, so `length hdr`
  -- rounds are enough.
  unfoldable pub finish_frame : ℕ → Bytes → Bytes → ℕ → Sock → Status × Sock
  finish_frame zero hdr payload n s =
      if ltb n (length hdr) then (stuck, s) else finish_payload hdr payload n s
  finish_frame (suc fuel) hdr payload n s =
      let r : Option ℕ × Sock = write_vectored s (drop n hdr ∷ payload ∷ []) in
      let round : Status × Sock = elim r.0 [
        | none ↦ (failed, r.1)
        | some wrote ↦
            let rest = finish_frame fuel hdr payload (n + wrote) r.1 in
            if wrote == 0 then (failed, r.1) else rest
      ] in
      if ltb n (length hdr) then round else finish_payload hdr payload n s

  unfoldable pub write_ws_binary_frame : Bytes → Sock → Status × Sock
  write_ws_binary_frame payload s =
      let hdr = ws_binary_header (length payload) in
      let r : Option ℕ × Sock = write_vectored s (hdr ∷ payload ∷ []) in
      if leb (length payload) 125 then write_status s (hdr ++ payload) else elim r.0 [
        | none ↦ (failed, r.1)
        | some n ↦
            if n == length hdr + length payload
            then (done, r.1)
            else if n == 0
            then (failed, r.1)
            else finish_frame (length hdr) hdr payload n r.1
      ]

  -- The last loop of `write_ws_frames_preframed_inner`.
  unfoldable pub write_each : List Bytes → Sock → Status × Sock
  write_each [] s = (done, s)
  write_each (f ∷ fs) s =
      let r : Bool × Sock = write_all s f in
      let rest = write_each fs r.1 in if r.0 then rest else (failed, r.1)

  -- The rest of the frame that was cut, then the frames behind it.
  unfoldable pub resume : ℕ → ℕ × List Bytes → Sock → Status × Sock
  unfolding write_each
  resume n (consumed, []) s = (done, s)
  resume n (consumed, f ∷ fs) s =
      let r : Bool × Sock = write_all s (drop (n - consumed) f) in
      if ltb consumed n
      then if r.0 then write_each fs r.1 else (failed, r.1)
      else write_each (f ∷ fs) s

  -- `write_ws_frames_preframed_inner`; its two branches, with the slices on the stack and on the
  -- heap, do the same.
  unfoldable pub write_ws_frames_preframed_inner : List Bytes → Sock → Status × Sock
  write_ws_frames_preframed_inner frames s =
      let r : Option ℕ × Sock = write_vectored s frames in
      elim r.0 [
        | none ↦ (failed, r.1)
        | some n ↦
            if n == length (concat frames)
            then (done, r.1)
            else if n == 0
            then (failed, r.1)
            else resume n (skip_written n 0 frames) r.1
      ]

  unfoldable pub write_chunks : List (List Bytes) → Sock → Status × Sock
  write_chunks [] s = (done, s)
  write_chunks (c ∷ cs) s =
      let r : Status × Sock = write_ws_frames_preframed_inner c s in
      let rest = write_chunks cs r.1 in
      elim r.0 [ done ↦ rest | failed ↦ (failed, r.1) | stuck ↦ (stuck, r.1) ]

  -- At most 1024 frames go into one call of `write_vectored`.
  unfoldable pub write_ws_frames_batched : List Bytes → Sock → Status × Sock
  write_ws_frames_batched [] s = (done, s)
  write_ws_frames_batched (f ∷ []) s = write_status s f
  write_ws_frames_batched (f ∷ g ∷ fs) s =
      let frames = f ∷ g ∷ fs in
      if ltb 1024 (length frames)
      then write_chunks (chunks 1024 (length frames) frames) s
      else write_ws_frames_preframed_inner frames s
