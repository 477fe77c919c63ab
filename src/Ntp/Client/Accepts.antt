-- ===== src/Ntp/Client/Accepts.antt =====
-- src/ntp/client.rs: which answers the client accepts.
use cfnts.Base.{
  ◌+◌, ◌^◌, ◌<◌, List, [], ◌∷◌, Bytes, true, All, inl, inr, Bool-cases, ok, bind-eq-ok, map_err,
  map_err-ok, first_of, first_of-ok, length, drop, ◌==◌, ==→eq, eq→==, ◌≡◌, refl,
}
use cfnts.Protocol.Types.{IsHeader, NtpExtension, NtsPacket}
use cfnts.Protocol.Aead.{Aead, IsAead}
use cfnts.Protocol.Extensions.RoundTrip.{IsExtension, wires}
use cfnts.Protocol.Nts.{parse_nts_packet, serialize_nts_packet}
use cfnts.Protocol.Nts.Wires.{IsPlain}
use cfnts.Protocol.Nts.RoundTrip.{parse-serialize_nts_packet}
use cfnts.Protocol.Nts.Authentic.{Opened, parse_nts_packet-Opened}
use cfnts.Ntp.Clock.{Floats}
use cfnts.Ntp.Client.{NtpResult, unparsed, same_bytes, time_diff, read_answer}

pub same_bytes_refl : (xs : Bytes) → same_bytes xs xs ≡ true
unfolding same_bytes
same_bytes_refl [] = refl
same_bytes_refl (x ∷ xs) = rw (eq→== x x refl) (same_bytes_refl xs)

pub same_bytes→eq : (xs ys : Bytes) → same_bytes xs ys ≡ true → xs ≡ ys
unfolding same_bytes
same_bytes→eq [] [] h = refl
same_bytes→eq [] (y ∷ ys) h = cc
same_bytes→eq (x ∷ xs) [] h = cc
same_bytes→eq (x ∷ xs) (y ∷ ys) h = elim (Bool-cases (x == y)) [
  | inl e ↦ rw (==→eq x y e, same_bytes→eq xs ys (rw e at h)) refl
  | inr n ↦ cc (rw n at h)
]

-- What the client knows of an answer that it accepted.
pub record Accepted (f : Floats) (aead : Aead) (s2c unique_id datagram : Bytes) (t1 t4 : f.F64)
    (r : NtpResult f) : Type 0 where
  pub packet : NtsPacket
  pub parsed : parse_nts_packet aead s2c datagram ≡ ok packet
  pub opened : Opened aead s2c datagram 48 (drop 48 datagram) packet.auth_exts packet.auth_enc_exts
  pub first : NtpExtension
  pub others : List NtpExtension
  pub starts : packet.auth_exts ≡ first ∷ others
  pub repeats : first.contents ≡ unique_id
  pub is_result : r ≡ record {
    stratum = packet.header.stratum;
    time_diff = time_diff f packet.header.receive_timestamp packet.header.transmit_timestamp t1 t4;
  }

module _ (f : Floats) (aead : Aead) (s2c unique_id : Bytes) (t1 t4 : f.F64) where
  -- If the client accepts a datagram, the AEAD opened its authenticator under the key from server to
  -- client, its first extension repeats the unique identifier of the query, and the result has
  -- the stratum and the timestamps of its header.
  pub read_answer-Accepted :
      (datagram : Bytes) (r : NtpResult f)
      → read_answer f aead s2c unique_id t1 t4 datagram ≡ ok r
      → Accepted f aead s2c unique_id datagram t1 t4 r
  unfolding read_answer
  read_answer-Accepted datagram r h =
      let (packet, p, k) = bind-eq-ok (map_err unparsed (parse_nts_packet aead s2c datagram)) _ h in
      let (ext, x, j) = bind-eq-ok (first_of packet.auth_exts) _ k in
      let (rest, starts) = first_of-ok packet.auth_exts x in
      let parsed = map_err-ok unparsed (parse_nts_packet aead s2c datagram) p in
      elim (Bool-cases (same_bytes ext.contents unique_id)) [
        | inl same ↦ record {
          packet = packet;
          parsed = parsed;
          opened = (parse_nts_packet-Opened aead s2c datagram parsed).1;
          first = ext;
          others = rest;
          starts = starts;
          repeats = same_bytes→eq ext.contents unique_id same;
          is_result = let e = rw same at j in cc;
        }
        | inr other ↦ absurd (let e = rw other at j in cc)
      ]

  -- With a sound AEAD and a nonce of 16 bytes, an answer that starts with the query's unique
  -- identifier, whose header fields hold values of their Rust types and whose extensions the
  -- wire format can hold, none of the authenticated ones being an authenticator and the
  -- encrypted ones leaving room for the length field, is serialised under the client's key; and
  -- the client accepts it, with its stratum and the difference of the clocks from its
  -- timestamps.
  pub read_answer-serialize :
      (nonce : Bytes) (packet : NtsPacket) (first : NtpExtension) (others : List NtpExtension)
      → IsAead aead
      → length nonce ≡ 16
      → IsHeader packet.header
      → packet.auth_exts ≡ first ∷ others
      → first.contents ≡ unique_id
      → All IsPlain packet.auth_exts
      → All IsExtension packet.auth_enc_exts
      → length (wires packet.auth_enc_exts) + 48 < 2 ^ 16
      → (datagram : Bytes) × (serialize_nts_packet aead s2c nonce packet ≡ ok datagram)
        × (read_answer f aead s2c unique_id t1 t4 datagram
            ≡ ok (record {
              stratum = packet.header.stratum;
              time_diff =
                  time_diff f packet.header.receive_timestamp packet.header.transmit_timestamp t1
                    t4;
            }))
  unfolding read_answer
  read_answer-serialize nonce packet first others sound n v starts repeats plain enc small =
      let (datagram, d, back) =
        bind-eq-ok (serialize_nts_packet aead s2c nonce packet) _
          (parse-serialize_nts_packet aead s2c nonce packet sound n v plain enc small) in
      (datagram, d, rw (back, starts, repeats, same_bytes_refl unique_id) refl)
