-- ===== src/Examples/Machine.antt =====
-- The cores of src/main.rs, the workers of src/server/mod.rs, the table of src/proxy/stream.rs and a
-- client that src/server/connection.rs lets in, on concrete values.
use shrimpwisp.Prelude.{ℕ, ◌+◌}
use shrimpwisp.Prelude.{◌≡◌, refl}
use shrimpwisp.Prelude.{true, none, some}
use shrimpwisp.Prelude.{List, [], ◌∷◌, ◌++◌, arith}
use shrimpwisp.Prelude.{if◌then◌else◌}
use shrimpwisp.Prelude.Bytes.{Bytes}
use shrimpwisp.Prelude.Bytes.{is_utf8, bytes_eq}
use shrimpwisp.Config.{codes, ServerConfig, default_config}
use shrimpwisp.Proxy.Table.{new_table}
use shrimpwisp.Cores.{Entry, num_physical_cores}
use shrimpwisp.Examples.{hello, example_org, example_ip}
use shrimpwisp.Net.{v4}
use shrimpwisp.Accept.{new_worker, accept_one}
use shrimpwisp.Accept.Runs.{Serving, accepts, IsServing}
use shrimpwisp.Accept.Server.{
  idle_worker, idle_workers, total_live, all_start, one_moves, ServerRuns, ServerRuns-Bounded,
}
use shrimpwisp.Prelude.{◌⊎◌, ◌≤◌, ◌*◌, length, All}
use shrimpwisp.Proxy.Reference.{
  Call, call_insert, call_remove, call_get, call_len, calls, reference_calls, calls-reference,
}
use shrimpwisp.Protocol.{ExtensionEntry, info}
use shrimpwisp.Protocol.Build.{build_initial_continue_frame}
use shrimpwisp.Protocol.Encoding.{encode}
use shrimpwisp.Auth.{Crypto, find_user, verify_password}
use shrimpwisp.Auth.Handshake.{
  binary_frame, ping_frame, Written, message, accepted, find_auth, handshake,
}
use shrimpwisp.Auth.Accepts.{handshake-Accepts}

-- Two CPUs of one core, and one of another.
abbrev cpu : Bytes → Bytes → Entry
cpu name core = record { name = name; physical_package_id = some (codes "0"); core_id = some core }

abbrev threads : List Entry
threads =
    cpu (codes "cpu0") (codes "0")
    ∷ cpu (codes "cpu1") (codes "0")
    ∷ cpu (codes "cpu2") (codes "1")
    ∷ []

two_cores : num_physical_cores (some (0 ∷ 1 ∷ 2 ∷ [])) (some threads) ≡ 2
unfolding num_physical_cores
two_cores = refl

-- A worker with one connection.
abbrev one_connection : Serving
one_connection = record {
  worker = (accept_one default_config 5 (v4 example_ip) new_worker).1;
  live = if (accept_one default_config 5 (v4 example_ip) new_worker).0 then 0 + 1 else 0;
}

two_workers : ServerRuns default_config 2 (one_connection ∷ idle_worker ∷ [])
two_workers =
    one_moves (idle_workers 2) 0 idle_worker one_connection all_start refl
      (accepts 5 (v4 example_ip) idle_worker)

ServerRuns-Bounded_example :
    (length (one_connection ∷ idle_worker ∷ []) ≡ 2)
    × All (IsServing default_config) (one_connection ∷ idle_worker ∷ [])
    × ((default_config.max_connections ≡ 0)
        ⊎ (total_live (one_connection ∷ idle_worker ∷ []) ≤ 2 * default_config.max_connections))
ServerRuns-Bounded_example =
    ServerRuns-Bounded default_config 2 (one_connection ∷ idle_worker ∷ []) two_workers

-- Both stores, a second stream under an ID, and one too many.
abbrev some_calls : List (Call ℕ)
some_calls =
    call_insert 3 30
    ∷ call_insert 9000 90
    ∷ call_insert 3 31
    ∷ call_insert 4 40
    ∷ call_remove 9000
    ∷ call_get 3
    ∷ call_len
    ∷ []

calls-reference_example :
    calls some_calls (new_table 2) ≡ reference_calls some_calls (record { entries = []; bound = 2 })
calls-reference_example = calls-reference 2 some_calls

-- The user "hello" with the password "example.org".
abbrev pub plain_text : Crypto
plain_text = record { bcrypt_verify = λ p h. none; ct_eq = bytes_eq }

abbrev pub with_hello : ServerConfig
with_hello = record default_config { auth_users = (hello, example_org) ∷ [] }

abbrev hello_exts : List ExtensionEntry
hello_exts = record { ext_id = 2; payload = 5 ∷ (hello ++ example_org) } ∷ []

handshake-Accepts_example :
    ((handshake plain_text with_hello true
        ((ping_frame [] ∷ []) ++ (binary_frame (encode (info 0 2 1 hello_exts)) ∷ []))).0
      ≡ accepted none)
    × ((before : List Written) × ((handshake plain_text with_hello true
            ((ping_frame [] ∷ []) ++ (binary_frame (encode (info 0 2 1 hello_exts)) ∷ []))).1
          ≡ before ++ (message (build_initial_continue_frame with_hello.buffer_size) ∷ [])))
handshake-Accepts_example =
    handshake-Accepts plain_text with_hello (ping_frame [] ∷ []) [] 1 hello_exts hello example_org
      example_org (tt, tt) ((omega arith, omega arith), tt) (unfold find_auth in refl)
      (unfold is_utf8 in refl) (omega arith) (unfold find_user in refl)
      (unfold verify_password is_utf8 in refl)
