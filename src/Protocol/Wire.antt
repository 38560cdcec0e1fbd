-- ===== src/Protocol/Wire.antt =====
-- src/workspace/wire.h and service_policy.h, as the build of src/protocol makes constants of them.
use worminal.Prelude.{ℕ, ◌*◌, ◌^◌}

-- `-DWORMINAL_PREVIEW_PROTOCOL` is set by src/protocol/build.rs.
abbrev pub wire_version : ℕ
wire_version = 2

abbrev pub wire_max_bytes : ℕ
wire_max_bytes = 8 * 1024 * 1024

-- `MAX_PAYLOAD` and `HEADER_BYTES` of lib.rs
abbrev pub max_payload : ℕ
max_payload = wire_max_bytes

abbrev pub header_bytes : ℕ
header_bytes = 4 * 4

abbrev pub wire_hello : ℕ
wire_hello = 1

abbrev pub workspace_max_cols : ℕ
workspace_max_cols = 400

abbrev pub workspace_max_rows : ℕ
workspace_max_rows = 200

abbrev pub workspace_max_args : ℕ
workspace_max_args = 1024

abbrev pub workspace_max_env : ℕ
workspace_max_env = 8192

-- Rune, attributes, foreground and background, four bytes each.
abbrev pub wire_cell_bytes : ℕ
wire_cell_bytes = 4 * 4

abbrev pub wire_frame : ℕ
wire_frame = 8

abbrev pub wire_row : ℕ
wire_row = 9

abbrev pub wire_frame_finish : ℕ
wire_frame_finish = 10

abbrev pub wire_copy_rows : ℕ
wire_copy_rows = 29

abbrev pub wire_row_span : ℕ
wire_row_span = 32

-- The bits of the features that a client may have.
abbrev pub wire_feature_copy_rows : ℕ
wire_feature_copy_rows = 2 ^ 0

abbrev pub wire_feature_row_span : ℕ
wire_feature_row_span = 2 ^ 3

abbrev pub wire_release : ℕ
wire_release = 15
