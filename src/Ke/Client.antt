-- ===== src/Ke/Client.antt =====
-- src/nts_ke/client.rs: the key exchange of the client. Name resolution, the TCP connection and the
-- TLS session are parameters, by what their calls answer.
pub mod Ends
use cfnts.Base.{
  ℕ, zero, suc, ◌+◌, ◌-◌, ◌*◌, ◌^◌, List, [], ◌∷◌, ◌++◌, Bytes, Bool, true, false, Option, some,
  none, not, ◌&&◌, Outcome, ok, err, panic, hang, ◌>>=◌, ◌>>◌, guard, map_err, unwrap, ok_or,
  length, ltb, leb, ◌==◌, if◌then◌else◌,
}
use cfnts.Cookie.{NtsKeys}
use cfnts.Records.Types.{
  client, ntpv4, aead_aes_siv_cmac_256, end_of_message, next_protocol, aead_algorithm,
  NtsKeParseError, no_ipv4_addr_found, no_ipv6_addr_found, ReceivedNtsKeRecordState, Net,
}
use cfnts.Records.Wire.{serialize}
use cfnts.Records.Process.{received_nothing}
use cfnts.Ke.Stream.{RecordFault, take_record, next_record}

abbrev pub default_ntp_port : ℕ
default_ntp_port = 123

abbrev pub default_ke_port : ℕ
default_ke_port = 4460

abbrev pub default_scheme : ℕ
default_scheme = 0

pub record NtsKeResult : Type 0 where
  pub cookies : List Bytes
  pub next_protocols : List ℕ
  pub aead_scheme : ℕ
  pub next_server : Bytes
  pub next_port : ℕ
  pub keys : NtsKeys
  pub use_ipv4 : Option Bool

-- The fields of `ClientConfig` that the exchange reads; the certificate is used by `TlsClient`.
pub record ClientConfig : Type 0 where
  pub host : Bytes
  pub port : Option Bytes
  pub use_ipv4 : Option Bool

pub data KeClientError : Type 0 where
  certificate_error port_error resolve_error connect_error write_error read_error : KeClientError
  shutdown_error : KeClientError
  no_address : NtsKeParseError → KeClientError
  record_error : RecordFault → KeClientError

pub record SocketAddr : Type 0 where
  pub is_ipv4 : Bool
  pub text : Bytes

-- What the calls on the network answer: whether the root certificate is added, whether the host is
-- a DNS name, the addresses of a name and port, whether a connection to an address is made and
-- the request written, the keys of `gen_key`, the plaintext that arrives, and whether the socket's
-- `shutdown` succeeds.
pub record TlsClient : Type 0 where
  pub adds_root : Bool
  pub is_dns_name : Bytes → Bool
  pub resolve : Bytes → ℕ → Option (List SocketAddr)
  pub connects : SocketAddr → Bool
  pub writes : Bytes → Bool
  pub exported : Option NtsKeys
  pub plaintext : Bytes
  pub shuts : Bool

-- The digits of a decimal number below 2^16, read from the left after the number `n`.
unfoldable pub parse_digits : ℕ → Bytes → Option ℕ
parse_digits n [] = some n
parse_digits n (d ∷ ds) =
    let next = n * 10 + (d - b'0') in
    if leb b'0' d && leb d b'9' && ltb next (2 ^ 16) then parse_digits next ds else none

-- `str::parse::<u16>`, which takes a sign `+`.
unfoldable pub parse_u16 : Bytes → Option ℕ
unfolding parse_digits
parse_u16 [] = none
parse_u16 (d ∷ []) = parse_digits 0 (d ∷ [])
parse_u16 (d ∷ e ∷ ds) = if d == b'+' then parse_digits 0 (e ∷ ds) else parse_digits 0 (d ∷ e ∷ ds)

-- `Iterator::find`
unfoldable pub find_addr : (SocketAddr → Bool) → List SocketAddr → Option SocketAddr
find_addr p [] = none
find_addr p (a ∷ rest) = let later = find_addr p rest in if p a then some a else later

-- The port of the connection.
unfoldable pub ke_port : Option Bytes → Outcome KeClientError ℕ
unfolding parse_u16
ke_port none = ok default_ke_port
ke_port (some text) = elim (parse_u16 text) [ none ↦ err port_error | some port ↦ ok port ]

-- The address that the connection goes to; without a wanted version, none makes `unwrap` panic.
unfoldable pub choose_addr : Option Bool → List SocketAddr → Outcome KeClientError SocketAddr
unfolding find_addr
choose_addr (some true) addrs = elim (find_addr (λ a. a.is_ipv4) addrs) [
  | none ↦ err (no_address no_ipv4_addr_found)
  | some a ↦ ok a
]
choose_addr (some false) addrs = elim (find_addr (λ a. not a.is_ipv4) addrs) [
  | none ↦ err (no_address no_ipv6_addr_found)
  | some a ↦ ok a
]
choose_addr none [] = panic
choose_addr none (a ∷ rest) = ok a

-- The first of the offered algorithms.
abbrev pub chosen_scheme : List ℕ → ℕ
chosen_scheme [] = default_scheme
chosen_scheme (scheme ∷ rest) = scheme

abbrev pub unwrap_or : {A : Type 0} → A → Option A → A
unwrap_or a none = a
unwrap_or a (some b) = b

module _ (net : Net) where
  -- The records of the request.
  unfoldable pub request : Outcome KeClientError Bytes
  unfolding serialize
  request = do
    protocols ← serialize net (next_protocol (ntpv4 ∷ []))
    algorithms ← serialize net (aead_algorithm (aead_aes_siv_cmac_256 ∷ []))
    end ← serialize net end_of_message
    ok (protocols ++ (algorithms ++ end))

  -- The loop, with as much fuel as there are bytes, and one. `read_exact` fails on a short stream.
  unfoldable pub read_response :
      ℕ → Bytes → ReceivedNtsKeRecordState → Outcome KeClientError ReceivedNtsKeRecordState
  read_response zero stream s = hang
  read_response (suc fuel) stream s = if s.finished then ok s else (elim (next_record stream) [
    | none ↦ err read_error
    | some p ↦
        map_err record_error (take_record net client p.0 s) >>= λ s'. read_response fuel p.1 s'
  ])

  unfoldable pub run_nts_ke_client : TlsClient → ClientConfig → Outcome KeClientError NtsKeResult
  unfolding request read_response ke_port choose_addr
  run_nts_ke_client tls config = do
    guard tls.adds_root certificate_error
    (if tls.is_dns_name config.host then ok tt else panic) >> (do
      port ← ke_port config.port
      addrs ← ok_or resolve_error (tls.resolve config.host port)
      addr ← choose_addr config.use_ipv4 addrs
      guard (tls.connects addr) connect_error
      clientrec ← request
      guard (tls.writes clientrec) write_error
      keys ← unwrap tls.exported
      state ← read_response (length tls.plaintext + 1) tls.plaintext received_nothing
      guard tls.shuts shutdown_error
      ok (record {
        cookies = state.cookies;
        next_protocols = state.next_protocols;
        aead_scheme = chosen_scheme state.aead_scheme;
        next_server = unwrap_or config.host state.next_server;
        next_port = unwrap_or default_ntp_port state.next_port;
        keys = keys;
        use_ipv4 = config.use_ipv4;
      }))
