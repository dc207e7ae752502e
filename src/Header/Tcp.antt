-- ===== src/Header/Tcp.antt =====
-- Header.go, `tcpHeader`: twenty bytes, options up to forty more, and the data behind them.
pub mod Laws
pub mod Inverse
use go_software_router.Prelude.{
  ℕ, ◌*◌, ◌/◌, ◌^◌, List, [], ◌∷◌, ◌++◌, Bool, ◌||◌, Result, ok, ◌>>=◌, u8, bit_and, bit_or, ltb,
  if◌then◌else◌, length, at, slice, slice_from,
}
use go_software_router.Wire.{byte_to_uint16, byte_to_uint32, uint16_to_byte, uint32_to_byte}

pub record TcpHeader : Type 0 where
  pub src_port : ℕ
  pub dest_port : ℕ
  pub sequence_num : ℕ
  pub response_check_num : ℕ
  pub data_offset : ℕ
  pub reserve : ℕ
  pub flag : ℕ
  pub window_size : ℕ
  pub check_sum : ℕ
  pub urg_pointer : ℕ
  pub options : List ℕ
  pub tcpdata : List ℕ

-- `tcpHeader{}`.
abbrev pub empty : TcpHeader
empty = record {
  src_port = 0;
  dest_port = 0;
  sequence_num = 0;
  response_check_num = 0;
  data_offset = 0;
  reserve = 0;
  flag = 0;
  window_size = 0;
  check_sum = 0;
  urg_pointer = 0;
  options = [];
  tcpdata = [];
}

-- `tcp.dataOffset<<4 | tcp.reserve&0x0f`, on uint8.
abbrev pub offset_byte : TcpHeader → ℕ
offset_byte tcp = bit_or (u8 (tcp.data_offset * 2 ^ 4)) (bit_and tcp.reserve 0x0f)

-- The twenty bytes that are always there.
unfoldable pub fixed_part : TcpHeader → List ℕ
unfolding uint16_to_byte uint32_to_byte
fixed_part tcp =
    uint16_to_byte tcp.src_port
    ++ (uint16_to_byte tcp.dest_port
        ++ (uint32_to_byte tcp.sequence_num
            ++ (uint32_to_byte tcp.response_check_num
                ++ (offset_byte tcp ∷ tcp.flag ∷ []
                    ++ (uint16_to_byte tcp.window_size
                        ++ (uint16_to_byte tcp.check_sum ++ uint16_to_byte tcp.urg_pointer))))))

-- Writing an empty slice writes nothing, so the tests on the lengths of the options and data
-- need no branch.
unfoldable pub to_packet : TcpHeader → List ℕ
to_packet tcp = fixed_part tcp ++ (tcp.options ++ tcp.tcpdata)

unfoldable pub parse_fields : List ℕ → Result TcpHeader
unfolding byte_to_uint16 byte_to_uint32
parse_fields packet = do
  src_port ← slice packet 0 2 >>= byte_to_uint16
  dest_port ← slice packet 2 4 >>= byte_to_uint16
  sequence_num ← slice packet 4 8 >>= byte_to_uint32
  response_check_num ← slice packet 8 12 >>= byte_to_uint32
  offset ← at packet 12
  flag ← at packet 13
  window_size ← slice packet 14 16 >>= byte_to_uint16
  check_sum ← slice packet 16 18 >>= byte_to_uint16
  urg_pointer ← slice packet 18 20 >>= byte_to_uint16
  ok (record {
    src_port = src_port;
    dest_port = dest_port;
    sequence_num = sequence_num;
    response_check_num = response_check_num;
    data_offset = offset / 2 ^ 4;
    reserve = bit_and offset 0x0f;
    flag = flag;
    window_size = window_size;
    check_sum = check_sum;
    urg_pointer = urg_pointer;
    options = [];
    tcpdata = [];
  })

-- `header.dataOffset * 4`, a uint8.
abbrev pub header_len : TcpHeader → ℕ
header_len header = u8 (header.data_offset * 4)

-- The options and the data, cut at the header's own length.
unfoldable pub parse_tail : List ℕ → TcpHeader → Result TcpHeader
parse_tail packet header = do
  options ← if ltb 20 (header_len header) then slice packet 20 (header_len header) else ok []
  tcpdata ←
      if ltb (header_len header) (length packet)
      then slice_from packet (header_len header)
      else ok []
  ok (record header { options = options; tcpdata = tcpdata })

unfoldable pub parse_checked : List ℕ → TcpHeader → Result TcpHeader
parse_checked packet header =
    if ltb header.data_offset 5 || ltb (length packet) (header_len header)
    then ok empty
    else parse_tail packet header

-- A packet that is too short, or whose data offset is wrong, gives the empty header, no error.
unfoldable pub parse_packet : List ℕ → Result TcpHeader
parse_packet packet =
    if ltb (length packet) 20 then ok empty else parse_fields packet >>= parse_checked packet
