-- ===== src/Wire/PktType.antt =====
-- `enum PKT_TYPE` of tools/cga-web/src/common/protocol.h.
use Prim.Native.Nat.{ℕ}

abbrev pub noop : ℕ
noop = 0

abbrev pub ping : ℕ
ping = 1

abbrev pub pong : ℕ
pong = 2

abbrev pub status_req : ℕ
status_req = 3

abbrev pub status_resp : ℕ
status_resp = 4

abbrev pub session_start : ℕ
session_start = 5

abbrev pub vga_text : ℕ
vga_text = 6

abbrev pub inject_keystroke : ℕ
inject_keystroke = 7

abbrev pub cga_graphics : ℕ
cga_graphics = 8

abbrev pub file_put_begin : ℕ
file_put_begin = 9

abbrev pub file_put_data : ℕ
file_put_data = 10

abbrev pub file_put_end : ℕ
file_put_end = 11

abbrev pub file_ack : ℕ
file_ack = 12

abbrev pub file_get_begin : ℕ
file_get_begin = 13

abbrev pub file_get_data_req : ℕ
file_get_data_req = 14

abbrev pub file_get_data : ℕ
file_get_data = 15

abbrev pub file_get_end : ℕ
file_get_end = 16

abbrev pub dir_list_begin : ℕ
dir_list_begin = 17

abbrev pub dir_list_data_req : ℕ
dir_list_data_req = 18

abbrev pub dir_list_data : ℕ
dir_list_data = 19

abbrev pub dir_list_end : ℕ
dir_list_end = 20

abbrev pub file_mkdir : ℕ
file_mkdir = 21

abbrev pub file_delete : ℕ
file_delete = 22

abbrev pub file_rename : ℕ
file_rename = 23

abbrev pub file_copy : ℕ
file_copy = 24
