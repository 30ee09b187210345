-- ===== src/Wire.antt =====
-- New_socket_proj/common.h: the wire constants, the message types, and packed structs as bytes.
pub mod Codec
use socket_project.Prelude.{
  ℕ, ◌+◌, ◌*◌, ◌/◌, ◌%◌, ◌^◌, ◌<◌, Bool, true, false, ◌&&◌, ◌==◌, List, [], ◌∷◌, ◌++◌, drop,
}

abbrev pub max_file_size : ℕ
max_file_size = 4 * 1024 * 1024

abbrev pub max_filename_len : ℕ
max_filename_len = 256

-- `msg_type_t` is packed into one byte, and any byte may arrive in its place: a type is a number.
abbrev pub msg_hello : ℕ
msg_hello = 1

abbrev pub msg_bye : ℕ
msg_bye = 2

abbrev pub msg_load_req : ℕ
msg_load_req = 3

abbrev pub msg_load_resp : ℕ
msg_load_resp = 4

abbrev pub msg_task_file : ℕ
msg_task_file = 6

abbrev pub msg_output : ℕ
msg_output = 7

abbrev pub msg_task_done : ℕ
msg_task_done = 8

abbrev pub IsByte : ℕ → Type 0
IsByte b = b < 256

abbrev pub Bytes : Type 0
Bytes = List ℕ

-- `htonl` and `htons`, seen as the bytes that the field then holds in memory: the high byte first.
unfoldable pub be32 : ℕ → Bytes
be32 v = (v / 2 ^ 24 % 256) ∷ (v / 2 ^ 16 % 256) ∷ (v / 2 ^ 8 % 256) ∷ (v % 256) ∷ []

unfoldable pub be16 : ℕ → Bytes
be16 v = (v / 2 ^ 8 % 256) ∷ (v % 256) ∷ []

-- `memcpy` of a field out of a buffer, then `ntohl` or `ntohs`. The callers check the length first;
-- a read past the end, which they never make, is 0 here.
unfoldable pub of_be32 : Bytes → ℕ
of_be32 (a ∷ b ∷ c ∷ d ∷ _) = a * 2 ^ 24 + b * 2 ^ 16 + c * 2 ^ 8 + d
of_be32 _ = 0

unfoldable pub of_be16 : Bytes → ℕ
of_be16 (a ∷ b ∷ _) = a * 2 ^ 8 + b
of_be16 _ = 0

unfoldable pub of_byte : Bytes → ℕ
of_byte (a ∷ _) = a
of_byte _ = 0

-- `msg_header_t`, its numbers in host order.
pub record MsgHeader : Type 0 where
  pub type : ℕ
  pub flags : ℕ
  pub payload_len : ℕ
  pub reserved : ℕ

-- `sizeof(msg_header_t)`
abbrev pub header_size : ℕ
header_size = 8

unfoldable pub header_bytes : MsgHeader → Bytes
unfolding be32 be16
header_bytes h = (h.type % 256) ∷ (h.flags % 256) ∷ (be32 h.payload_len ++ be16 h.reserved)

unfoldable pub read_header : Bytes → MsgHeader
unfolding of_be32 of_be16 of_byte
read_header buf = record {
  type = of_byte buf;
  flags = of_byte (drop 1 buf);
  payload_len = of_be32 (drop 2 buf);
  reserved = of_be16 (drop 6 buf);
}

-- `memset(&hdr, 0, sizeof(hdr))`, then the type and the length.
unfoldable pub new_header : ℕ → ℕ → MsgHeader
new_header type payload_len = record {
  type = type;
  flags = 0;
  payload_len = payload_len;
  reserved = 0;
}

-- `strcmp(a, b) == 0`, on strings without their final NUL.
unfoldable pub strcmp_eq : Bytes → Bytes → Bool
strcmp_eq [] [] = true
strcmp_eq (a ∷ as') (b ∷ bs) = a == b && strcmp_eq as' bs
strcmp_eq _ _ = false

-- `payload_load_resp_t`, in host order; `load_pct` is the bit pattern of the float.
pub record LoadResp : Type 0 where
  pub load_pct : ℕ
  pub active_tasks : ℕ
  pub total_tasks : ℕ
  pub num_cores : ℕ

abbrev pub load_resp_size : ℕ
load_resp_size = 16

-- Each field through `htonl`, the float by `memcpy` over a `uint32_t`; and back.
unfoldable pub load_resp_bytes : LoadResp → Bytes
unfolding be32
load_resp_bytes r =
    be32 r.load_pct ++ (be32 r.active_tasks ++ (be32 r.total_tasks ++ be32 r.num_cores))

unfoldable pub read_load_resp : Bytes → LoadResp
unfolding of_be32
read_load_resp resp = record {
  load_pct = of_be32 resp;
  active_tasks = of_be32 (drop 4 resp);
  total_tasks = of_be32 (drop 8 resp);
  num_cores = of_be32 (drop 12 resp);
}
