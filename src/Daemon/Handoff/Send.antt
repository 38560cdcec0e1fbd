-- ===== src/Daemon/Handoff/Send.antt =====
-- `encode_tab`: what a tab is in the snapshot.
use worminal.Prelude.{
  ℕ, zero, suc, ◌-◌, ◌/◌, ◌%◌, ◌^◌, Option, none, some, List, [], ◌∷◌, ◌++◌, length, get_or,
}
use worminal.Prelude.Result.{Result, Exec, ok, ◌>>◌, pure, try}
use worminal.Protocol.Wire.{max_payload}
use worminal.Protocol.Buffer
use worminal.Protocol.Buffer.{Buffer}
use worminal.Protocol.Packet.{finished}
use worminal.Daemon.Handoff.Tab.{Tab}

-- `to_ne_bytes` on a little-endian machine
unfoldable pub to_native : ℕ → List ℕ
to_native v = v % 256 ∷ v / 2 ^ 8 % 256 ∷ v / 2 ^ 16 % 256 ∷ v / 2 ^ 24 % 256 ∷ []

unfoldable pub or_default : Option (List ℕ) → List ℕ
or_default none = []
or_default (some text) = text

unfoldable pub is_browser : Option (List ℕ) → ℕ
is_browser none = 0
is_browser (some url) = 1

unfoldable pub color_at : Option (List (Option (List ℕ))) → ℕ → List ℕ
unfolding or_default
color_at none index = []
color_at (some colors) index = or_default (get_or colors index none)

-- The loops that put strings: the fields, and the colours from an index on.
unfoldable pub put_fields : List (List ℕ) → Exec Buffer Unit
put_fields [] = pure tt
put_fields (field ∷ fields) = do Buffer.put_string field; put_fields fields

unfoldable pub color_fields : Option (List (Option (List ℕ))) → ℕ → ℕ → List (List ℕ)
color_fields colors zero index = []
color_fields colors (suc rounds) index =
    color_at colors index ∷ color_fields colors rounds (suc index)

unfoldable pub fields : Tab → List (List ℕ)
fields tab = tab.title ∷ tab.initial_title ∷ tab.directory ∷ tab.clipboard ∷ or_default tab.url ∷ []

-- The colours, and what waits for the tab's terminal.
unfoldable pub put_tail : ℕ → Tab → List ℕ → Exec Buffer Unit
put_tail color_names tab input = do
  Buffer.put_u32 color_names
  put_fields (color_fields tab.colors color_names 0)
  Buffer.put_u32 (length input)
  Buffer.put_bytes input

-- `pid` is the live process of the tab, or 0, and `input` what waits for its terminal.
unfoldable pub put_metadata : ℕ → Tab → ℕ → List ℕ → Exec Buffer Unit
put_metadata color_names tab pid input = do
  Buffer.put_u32 (is_browser tab.url)
  Buffer.put_u32 tab.mode
  Buffer.put_u32 tab.cursor
  Buffer.put_u32 pid
  put_fields (fields tab)
  put_tail color_names tab input

unfoldable pub metadata_bytes : ℕ → Tab → ℕ → List ℕ → Result (List ℕ)
unfolding put_metadata
metadata_bytes color_names tab pid input =
    finished (put_metadata color_names tab pid input (Buffer.with_limit (max_payload - 4)))

-- The bytes that are written for a tab; `export` is the terminal engine's, where there is a terminal.
unfoldable pub encode_tab : ℕ → Tab → ℕ → List ℕ → Option (Result (List ℕ)) → Result (List ℕ)
unfolding metadata_bytes
encode_tab color_names tab pid input none =
    try (metadata_bytes color_names tab pid input) λ body. ok (to_native (length body) ++ body)
encode_tab color_names tab pid input (some export) =
    try (metadata_bytes color_names tab pid input)
      λ body. try export λ engine. ok (to_native (length body) ++ (body ++ engine))
