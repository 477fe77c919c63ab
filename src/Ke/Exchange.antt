-- ===== src/Ke/Exchange.antt =====
-- src/nts_ke/server/connection.rs and src/nts_ke/client.rs: the client reads the server's response.
pub mod Run
use cfnts.Base.{
  ℕ, suc, ◌+◌, ◌-◌, ◌^◌, ◌<◌, ◌≤◌, List, [], ◌∷◌, ◌++◌, append_assoc, append-nil, map, Bytes, Bool,
  true, false, Option, some, none, All, ok, ◌>>=◌, map_err, u16_bytes, u16_of-u16_bytes, IsU16,
  length, length-append, if_false, arith, ◌≡◌, refl, sym, ap, ◌∙◌,
}
use cfnts.Protocol.Aead.{Aead, IsAead}
use cfnts.Cookie.{NtsKeys, IsKeys, make_cookie}
use cfnts.Cookie.RoundTrip.{length-make_cookie}
use cfnts.KeyRotator.{KeyRotator, RotateError, latest_key_value}
use cfnts.Records.Types.{
  client, ntpv4, aead_aes_siv_cmac_256, KeRecord, end_of_message, next_protocol, aead_algorithm,
  new_cookie, port_record, Net, ReceivedNtsKeRecordState,
}
use cfnts.Records.Wire.{deserialize}
use cfnts.Records.Process.{process_record, received_nothing}
use cfnts.Records.RoundTrip.{IsRecord, record_wire, serialize-record_wire, deserialize-serialize}
use cfnts.Ke.Stream.{refused, take_record, take_result}
use cfnts.Ke.Stream.Next.{IsWholeRecord, next_record-whole}
use cfnts.Ke.Server.{cookie_records, response}
use cfnts.Ke.Client.{read_response}

-- The cookies of the nonces.
abbrev pub cookies_of : Aead → NtsKeys → Bytes → ℕ → List Bytes → List Bytes
cookies_of aead keys master_key key_id nonces =
    map (λ nonce. make_cookie aead nonce keys master_key key_id) nonces

-- The records of a response around its cookies, and the state that they lead to.
abbrev front : Bytes
front = 128 ∷ 1 ∷ 0 ∷ 2 ∷ 0 ∷ 0 ∷ 128 ∷ 4 ∷ 0 ∷ 2 ∷ 0 ∷ 15 ∷ []

abbrev back : ℕ → Bytes
back port = 128 ∷ 7 ∷ 0 ∷ 2 ∷ (u16_bytes port ++ (128 ∷ 0 ∷ 0 ∷ 0 ∷ []))

abbrev pub agreed : List Bytes → Option ℕ → Bool → ReceivedNtsKeRecordState
agreed cookies port finished = record {
  finished = finished;
  next_protocols = 0 ∷ [];
  aead_scheme = 15 ∷ [];
  cookies = cookies;
  next_server = none;
  next_port = port;
}

module _ (net : Net) where
  read_response-turn :
      (fuel : ℕ) (first rest : Bytes) (s s' : ReceivedNtsKeRecordState)
      → IsWholeRecord first
      → s.finished ≡ false
      → take_record net client first s ≡ ok s'
      → read_response net (suc fuel) (first ++ rest) s ≡ read_response net fuel rest s'
  unfolding read_response
  read_response-turn fuel first rest s s' whole h e =
      if_false _ _ h ∙ rw (next_record-whole first rest whole, e) refl

  take_record-wire :
      (r : KeRecord) (s s' : ReceivedNtsKeRecordState)
      → IsRecord net client r
      → process_record net r s ≡ ok s'
      → take_record net client (record_wire net client r) s ≡ ok s'
  unfolding take_record take_result
  take_record-wire r s s' h e =
      let back : deserialize net client (record_wire net client r) ≡ ok r =
        ap (deserialize net client) (sym (append-nil (record_wire net client r)))
        ∙ ap (λ m. m >>= λ bytes. deserialize net client (bytes ++ []))
            (sym (serialize-record_wire net client r h))
        ∙ deserialize-serialize net client r [] h in
      ap (take_result net s) back ∙ ap (map_err refused) e

  -- The client reads a port record that a server wrote as one of a client: their critical bits
  -- differ, and nothing else.
  take_record-port :
      (port : ℕ) (s : ReceivedNtsKeRecordState)
      → IsU16 port
      → s.finished ≡ false
      → take_record net client (128 ∷ 7 ∷ 0 ∷ 2 ∷ u16_bytes port) s
        ≡ ok (record s { next_port = some port })
  unfolding take_record take_result deserialize process_record
  take_record-port port s h f =
      ap (λ w. take_result net s (ok (port_record client w))) (u16_of-u16_bytes port h)
      ∙ ap (map_err refused) (if_false _ _ f)

  read_response-front :
      (fuel : ℕ) (rest : Bytes)
      → read_response net (suc (suc fuel)) (front ++ rest) received_nothing
        ≡ read_response net fuel rest (agreed [] none false)
  unfolding process_record
  read_response-front fuel rest =
      let s = record received_nothing { next_protocols = 0 ∷ [] } in
      read_response-turn (suc fuel) (128 ∷ 1 ∷ 0 ∷ 2 ∷ 0 ∷ 0 ∷ []) (128 ∷ 4 ∷ 0 ∷ 2 ∷ 0 ∷ 15 ∷ rest)
        received_nothing s refl refl
        (take_record-wire (next_protocol (ntpv4 ∷ [])) received_nothing s (omega arith) refl)
      ∙ read_response-turn fuel (128 ∷ 4 ∷ 0 ∷ 2 ∷ 0 ∷ 15 ∷ []) rest s (agreed [] none false) refl
          refl
          (take_record-wire (aead_algorithm (aead_aes_siv_cmac_256 ∷ [])) s (agreed [] none false)
            (omega arith) refl)

  read_response-back :
      (fuel : ℕ) (rest : Bytes) (cookies : List Bytes) (port : ℕ)
      → IsU16 port
      → read_response net (suc (suc (suc fuel))) (back port ++ rest) (agreed cookies none false)
        ≡ ok (agreed cookies (some port) true)
  unfolding process_record read_response
  read_response-back fuel rest cookies port h =
      read_response-turn (suc (suc fuel)) (128 ∷ 7 ∷ 0 ∷ 2 ∷ u16_bytes port)
        (128 ∷ 0 ∷ 0 ∷ 0 ∷ rest) (agreed cookies none false) (agreed cookies (some port) false) refl
        refl (take_record-port port (agreed cookies none false) h refl)
      ∙ read_response-turn (suc fuel) (128 ∷ 0 ∷ 0 ∷ 0 ∷ []) rest (agreed cookies (some port) false)
          (agreed cookies (some port) true) refl refl
          (take_record-wire end_of_message (agreed cookies (some port) false)
            (agreed cookies (some port) true) tt refl)

module _ (net : Net) (aead : Aead) (sound : IsAead aead) (keys : NtsKeys) (k : IsKeys keys)
    (master_key : Bytes) (key_id : ℕ) where
  read_response-cookies :
      (E : Type 0) (nonces : List Bytes)
      → All (λ nonce. length nonce ≡ 16) nonces
      → (bytes : Bytes) × (cookie_records net aead {E = E} nonces keys master_key key_id ≡ ok bytes)
        × (length nonces ≤ length bytes)
        × ((fuel : ℕ) (rest : Bytes) (s : ReceivedNtsKeRecordState)
            → s.finished ≡ false
            → read_response net (length nonces + fuel) (bytes ++ rest) s
              ≡ read_response net fuel rest (record s {
                cookies = s.cookies ++ cookies_of aead keys master_key key_id nonces;
              }))
  unfolding cookie_records process_record
  read_response-cookies E [] h = (
    [],
    refl,
    omega arith,
    λ fuel rest s f.
        ap (λ n. read_response net n rest s) (omega arith)
        ∙ ap (λ cs. read_response net fuel rest (record s { cookies = cs }))
            (sym (append-nil s.cookies)),
  )
  read_response-cookies E (nonce ∷ nonces) (n, h) =
      let cookie = make_cookie aead nonce keys master_key key_id in
      let small : length cookie < 2 ^ 16 =
        omega (arith, length-make_cookie aead nonce keys master_key key_id sound k n) in
      let wire = record_wire net client (new_cookie cookie) in
      let (others, e, more, reads) = read_response-cookies E nonces h in
      (
        wire ++ others,
        rw (serialize-record_wire net client (new_cookie cookie) small, e) refl,
        omega (arith, length-append wire others),
        λ fuel rest s f.
            let s' = record s { cookies = s.cookies ++ (cookie ∷ []) } in
            let n : suc (length nonces) + fuel ≡ suc (length nonces + fuel) = omega arith in
            ap (λ n. read_response net n ((wire ++ others) ++ rest) s) n
            ∙ ap (λ b. read_response net (suc (length nonces + fuel)) b s)
                (append_assoc wire others rest)
            ∙ read_response-turn net (length nonces + fuel) wire (others ++ rest) s s'
                (sym (u16_of-u16_bytes (length cookie) small)) f
                (take_record-wire net (new_cookie cookie) s s' small (if_false _ _ f))
            ∙ reads fuel rest s' f
            ∙ ap (λ cs. read_response net fuel rest (record s { cookies = cs }))
                (append_assoc s.cookies (cookie ∷ [])
                  (cookies_of aead keys master_key key_id nonces)),
      )

  -- With a latest key in the rotator, eight nonces of 16 bytes and keys of 32, an AEAD that is sound
  -- and a port that is a `u16`, the server does compute a response, and the client, before
  -- any other record, reads from it and whatever follows: the end of the message, NTPv4, the
  -- algorithm AEAD_AES_SIV_CMAC_256, the eight cookies in their order, and the server's NTP port.
  pub read_response-response :
      (nonces : List Bytes) (rotator : KeyRotator) (port : ℕ)
      → length nonces ≡ 8
      → All (λ nonce. length nonce ≡ 16) nonces
      → latest_key_value rotator ≡ ok (key_id, master_key)
      → IsU16 port
      → (bytes : Bytes) × (response net aead nonces keys rotator port ≡ ok bytes)
        × ((rest : Bytes)
            → read_response net (length (bytes ++ rest) + 1) (bytes ++ rest) received_nothing
              ≡ ok (agreed (cookies_of aead keys master_key key_id nonces) (some port) true))
  unfolding response
  read_response-response nonces rotator port eight n latest p =
      let (cookies, e, more, reads) = read_response-cookies RotateError nonces n in
      let middle = cookies ++ back port in
      (
        front ++ middle,
        rw (latest, e) refl,
        λ rest.
            let m = length ((front ++ middle) ++ rest) - 12 in
            let n : length ((front ++ middle) ++ rest) + 1
                ≡ suc (suc (length nonces + suc (suc (suc m)))) =
              omega (arith, length-append middle rest, length-append cookies (back port)) in
            ap (λ n. read_response net n ((front ++ middle) ++ rest) received_nothing) n
            ∙ ap
                (λ b.
                  read_response net (suc (suc (length nonces + suc (suc (suc m))))) (front ++ b)
                    received_nothing)
                (append_assoc cookies (back port) rest)
            ∙ read_response-front net (length nonces + suc (suc (suc m)))
                (cookies ++ (back port ++ rest))
            ∙ reads (suc (suc (suc m))) (back port ++ rest) (agreed [] none false) refl
            ∙ read_response-back net m rest (cookies_of aead keys master_key key_id nonces) port p,
      )
