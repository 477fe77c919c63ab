-- ===== src/Protocol/First.antt =====
-- src/ntp/protocol.rs: the first byte of a packet, which packs three fields.
use cfnts.Base.{
  ℕ, ◌*◌, ◌/◌, ◌%◌, ◌≡◌, refl, Bool, true, ◌&&◌, arith, ◌==◌, if◌then◌else◌, bit_and, bit_or, IsU8,
  check_under, check_under_sound,
}
use cfnts.Protocol.Types.{
  LeapState, no_leap, positive, negative, unknown, PacketMode, symmetric_active, symmetric_passive,
  client, server, broadcast, invalid,
}

-- `leap as u8` and `mode as u8`
abbrev pub leap_code : LeapState → ℕ
leap_code no_leap = 0
leap_code positive = 1
leap_code negative = 2
leap_code unknown = 3

abbrev pub mode_code : PacketMode → ℕ
mode_code symmetric_active = 1
mode_code symmetric_passive = 2
mode_code client = 3
mode_code server = 4
mode_code broadcast = 5
mode_code invalid = 6

-- `first >> 6` is `first / 64`.
unfoldable pub parse_leap_indicator : ℕ → LeapState
parse_leap_indicator first =
    let top = first / 64 in
    if top == 0
    then no_leap
    else if top == 1
    then positive
    else if top == 2
    then negative
    else unknown

unfoldable pub parse_version : ℕ → ℕ
parse_version first = bit_and first 0x38 / 8

unfoldable pub parse_mode : ℕ → PacketMode
parse_mode first =
    let modnum = bit_and first 0x07 in
    if modnum == 1
    then symmetric_active
    else if modnum == 2
    then symmetric_passive
    else if modnum == 3
    then client
    else if modnum == 4
    then server
    else if modnum == 5
    then broadcast
    else invalid

-- `<<` on a `u8` drops the bits that leave the byte.
unfoldable pub create_first : LeapState → ℕ → PacketMode → ℕ
create_first leap version mode =
    bit_or (bit_or (leap_code leap * 64 % 256) (bit_and (version * 8 % 256) 0x38))
      (bit_and (mode_code mode) 0x07)

-- The three parsers on a byte that `create_first` made, as one test for a version.
unpacks : LeapState → PacketMode → ℕ → Bool
unfolding create_first parse_leap_indicator parse_version parse_mode
unpacks leap mode version =
    let first = create_first leap version mode in
    leap_code (parse_leap_indicator first) == leap_code leap
    && parse_version first == version % 8
    && mode_code (parse_mode first) == mode_code mode
    && first / 256 == 0

unpacks_table : (leap : LeapState) (mode : PacketMode) → check_under (unpacks leap mode) 256 ≡ true
unfolding unpacks check_under
unpacks_table no_leap symmetric_active = refl
unpacks_table positive symmetric_active = refl
unpacks_table negative symmetric_active = refl
unpacks_table unknown symmetric_active = refl
unpacks_table _ _ = refl

leap_code_inj : (a b : LeapState) → leap_code a ≡ leap_code b → a ≡ b
leap_code_inj a b h = ground arith

mode_code_inj : (a b : PacketMode) → mode_code a ≡ mode_code b → a ≡ b
mode_code_inj a b h = ground arith

module _ (leap : LeapState) (version : ℕ) (mode : PacketMode) (h : IsU8 version) where
  unpacks-true : unpacks leap mode version ≡ true
  unpacks-true = check_under_sound (unpacks leap mode) 256 h (unpacks_table leap mode)

  pub leap-create_first : parse_leap_indicator (create_first leap version mode) ≡ leap
  unfolding unpacks
  leap-create_first = leap_code_inj _ _ (ground (arith, unpacks-true))

  pub version-create_first : parse_version (create_first leap version mode) ≡ version % 8
  unfolding unpacks
  version-create_first = ground (arith, unpacks-true)

  pub mode-create_first : parse_mode (create_first leap version mode) ≡ mode
  unfolding unpacks
  mode-create_first = mode_code_inj _ _ (ground (arith, unpacks-true))

  pub create_first-IsU8 : IsU8 (create_first leap version mode)
  unfolding unpacks
  create_first-IsU8 = ground (arith, unpacks-true)
