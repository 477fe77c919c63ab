-- ===== src/Lib.antt =====
-- The program: cfnts, client and server of Network Time Security. A client first runs the key
-- exchange (NTS-KE) over TLS, which gives it session keys and cookies; then it asks an NTP
-- server for the time, with a cookie from which the server learns the keys. The server's own
-- keys, under which cookies are sealed, are derived from values in memcached and rotate by the
-- hour.
--
-- The parts, and the files that model them:
--
-- Base: Boolean tests, lists with a native length, results of calls (`Outcome`: ok, err, panic,
-- and hang for a loop of the model without fuel), the bytes of machine integers.
-- Protocol (src/ntp/protocol.rs): Types, First (the first byte), Cursor and Header, Extensions,
-- Nts (the authenticator). `parse_ntp_packet`, `parse_nts_packet`, `serialize_ntp_packet` and
-- `serialize_nts_packet` keep their names. Aead is the interface of the cipher.
-- Cookie (src/cookie.rs): `make_cookie`, `get_keyid`, `eat_cookie`.
-- KeyRotator (src/key_rotator.rs): `rotate`, `connect`, `periodic_rotate` and `latest_key_value`
-- on an explicit state; Fetch, Rotate, Latest, Connect and Periodic hold the proofs.
-- Records (src/nts_ke/records): Types, Bodies (one record type after the other), Wire
-- (`serialize` and `deserialize`) and Process (`process_record`).
-- Ke (src/nts_ke): Stream is one turn of the record loops; Server is a connection of the server
-- (src/nts_ke/server/connection.rs), with `read_ready` and `write_ready` as functions of what
-- the TLS session answers; Listener is its table of connections (src/nts_ke/server/listener.rs),
-- with the body of the loop of `listen` as `handle_event`; Client is `run_nts_ke_client`
-- (src/nts_ke/client.rs); Exchange runs one against the other (Exchange/Run a whole client);
-- Setup is `KeServer::connect` and `start` (src/nts_ke/server/server.rs).
-- Ntp (src/ntp): Clock (timestamps), Server (the functions of src/ntp/server/server.rs, with the
-- counters as state; `response` itself is in Server/Response), Server/Run (`run_server` and
-- `start_ntp_server` of the same file, with the threads as steps in any order in Run/Steps),
-- Client (`run_nts_ntp_client` of src/ntp/client.rs) and Exchange, the client against the
-- server, with a whole session of both exchanges in Exchange/Session.
-- Config (src/nts_ke/server/config.rs, src/ntp/server/config.rs): Settings, what both share,
-- with `CookieKey::parse` of src/cookie.rs; Ke and Ntp, `parse` of each.
-- Metrics (src/metrics.rs): `serve_metrics` on one connection, with the validation of UTF-8 that
-- `read_line` of the standard library makes; Text relates it to the encoding.
-- Commands (src/sub_command): KeServer and NtpServer, `run` of ke_server.rs and ntp_server.rs,
-- which put the parts before together; Client, the measurement of client.rs.
-- Examples: the theorems at concrete inputs.
--
-- Bounds and fuel. Integers are natural numbers; a machine integer keeps its wrap-around, as in
-- a release build. The loops over bytes have as much fuel as there are bytes, and one more: each
-- turn takes four bytes or more, so that this is enough. The digits of a u64 are at most 20, and
-- `connect` tries five times.
--
-- Parameters: the AEAD (miscreant), HMAC, memcached, TLS, DNS and sockets, random numbers, the
-- clock, the arithmetic of f64, the parsing and printing of addresses, the config crate, the
-- file system, the parsers of PEM files, and the texts of errors.
--
-- Not modelled: the command line and the loggers (src/main.rs, src/cmd.rs), the accepting of
-- connections to the metrics and the socket options (src/metrics.rs, src/cfsock.rs), which are
-- input and output; in src/sub_command/client.rs the settings of the experiment and the loop of
-- an auxiliary client; the measurements in the servers, which panic where tests/experiment.yaml
-- is not there or does not name the measuring client: the theorems take it to be there; logging;
-- the locks of the shared state and rotator, which `response` takes to read, in part twice at a
-- time.
pub mod Base
pub mod Protocol
pub mod Cookie
pub mod KeyRotator
pub mod Records
pub mod Ke
pub mod Ntp
pub mod Config
pub mod Metrics
pub mod Commands
pub mod Examples
