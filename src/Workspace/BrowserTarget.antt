-- ===== src/Workspace/BrowserTarget.antt =====
-- src/workspace/src/browser_target.rs: what a new browser tab is to show.
pub mod Escape
pub mod Scheme
pub mod Resolve
mod Tests
use worminal.Prelude.Bytes.{bytes_eq}
use worminal.Prelude.{
  ℕ, zero, suc, ◌+◌, ◌-◌, ◌/◌, ◌%◌, Bool, true, false, not, ◌&&◌, ◌||◌, Option, none, some, List,
  [], ◌∷◌, ◌++◌, ltb, leb, ◌==◌, if◌then◌else◌, length, take, drop, get_or,
}
use worminal.Prelude.Result.{Result, ok, err, invalid_filename}
use worminal.Workspace.Recovery.{starts_with_slash}

abbrev pub workspace_browser_home : List ℕ
workspace_browser_home =
    b'a' ∷ b'b' ∷ b'o' ∷ b'u' ∷ b't' ∷ b':' ∷ b'b' ∷ b'l' ∷ b'a' ∷ b'n' ∷ b'k' ∷ []

abbrev localhost : List ℕ
localhost = b'l' ∷ b'o' ∷ b'c' ∷ b'a' ∷ b'l' ∷ b'h' ∷ b'o' ∷ b's' ∷ b't' ∷ []

abbrev between : ℕ → ℕ → ℕ → Bool
between low high byte = leb low byte && leb byte high

-- The methods of `u8`.
unfoldable pub is_ascii_digit : ℕ → Bool
is_ascii_digit byte = between b'0' b'9' byte

unfoldable pub is_ascii_alphabetic : ℕ → Bool
is_ascii_alphabetic byte = between b'A' b'Z' byte || between b'a' b'z' byte

unfoldable pub is_ascii_alphanumeric : ℕ → Bool
is_ascii_alphanumeric byte = is_ascii_alphabetic byte || is_ascii_digit byte

unfoldable pub to_ascii_lowercase : ℕ → ℕ
to_ascii_lowercase byte = if between b'A' b'Z' byte then byte + 32 else byte

unfoldable pub lowercase : List ℕ → List ℕ
lowercase [] = []
lowercase (byte ∷ bytes) = to_ascii_lowercase byte ∷ lowercase bytes

unfoldable pub contains : List ℕ → ℕ → Bool
contains [] byte = false
contains (x ∷ xs) byte = x == byte || contains xs byte

-- `iter().position(p).unwrap_or(bytes.len())`
unfoldable pub position_or_end : (ℕ → Bool) → List ℕ → ℕ
position_or_end p [] = 0
position_or_end p (byte ∷ bytes) =
    let rest = position_or_end p bytes in if p byte then 0 else suc rest

unfoldable pub all : (ℕ → Bool) → List ℕ → Bool
all p [] = true
all p (byte ∷ bytes) = p byte && all p bytes

-- The byte before, where there is one.
unfoldable pub follows : (ℕ → Bool) → Option ℕ → Bool
follows p none = false
follows p (some byte) = p byte

-- The loop over the host's bytes, with the byte before; `none` is `return false`.
unfoldable pub host_loop : Option ℕ → Bool → List ℕ → Option Bool
host_loop previous dotted [] = some dotted
host_loop previous dotted (byte ∷ bytes) =
    let dot = host_loop (some byte) true bytes in
    let other = host_loop (some byte) dotted bytes in
    if byte == b'.'
    then (if follows (λ b. not (contains (b'.' ∷ b'-' ∷ []) b)) previous then dot else none)
    else if is_ascii_alphanumeric byte || (byte == b'-' && follows (λ b. not (b == b'.')) previous)
    then other
    else none

unfoldable pub named_end : ℕ → List ℕ → Option Bool → Option ℕ
named_end host_end host none = none
named_end host_end host (some dotted) =
    if host_end == 0
      || (get_or host (host_end - 1) 0 == b'-'
          || (not dotted && not (bytes_eq (lowercase host) localhost)))
    then none
    else some host_end

-- `host_end` of the source; `none` is `return false`. Whether a text is an address of version 6 is a
-- parameter: `from_utf8` and `parse` of the standard library.
unfoldable pub host_end : (List ℕ → Bool) → List ℕ → Option ℕ
host_end is_ipv6 bytes =
    let close = position_or_end (λ b. b == b']') bytes in
    let colon = position_or_end (λ b. b == b':') bytes in
    let host = take colon bytes in
    if get_or bytes 0 0 == b'['
    then (if ltb close (length bytes) && is_ipv6 (drop 1 (take close bytes))
        then some (close + 1)
        else none)
    else named_end colon host (host_loop none false host)

unfoldable pub port : List ℕ → Option ℕ → Bool
port bytes none = false
port bytes (some end) =
    end == length bytes
    || (get_or bytes end 0 == b':'
        && (ltb (end + 1) (length bytes) && all is_ascii_digit (drop (end + 1) bytes)))

unfoldable pub authority : (List ℕ → Bool) → List ℕ → Bool
authority is_ipv6 bytes =
    let host = take (position_or_end (contains (b'/' ∷ b'?' ∷ b'#' ∷ [])) bytes) bytes in
    port host (host_end is_ipv6 host)

-- A scheme and a colon.
unfoldable pub has_scheme : List ℕ → Bool
has_scheme [] = false
has_scheme (byte ∷ bytes) =
    let end =
      position_or_end
        (λ b. not (is_ascii_alphanumeric b) && not (contains (b'+' ∷ b'-' ∷ b'.' ∷ []) b)) bytes in
    is_ascii_alphabetic byte && get_or bytes end 0 == b':'

-- `HEX[digit]`
unfoldable pub hex : ℕ → ℕ
hex digit = if ltb digit 10 then b'0' + digit else b'A' + (digit - 10)

unfoldable pub is_plain : ℕ → Bool
is_plain byte = is_ascii_alphanumeric byte || contains (b'/' ∷ b'-' ∷ b'.' ∷ b'_' ∷ b'~' ∷ []) byte

-- The loop over the path.
unfoldable pub escape : List ℕ → List ℕ
escape [] = []
escape (byte ∷ path) =
    let rest = escape path in
    if is_plain byte then byte ∷ rest else b'%' ∷ hex (byte / 16) ∷ hex (byte % 16) ∷ rest

abbrev pub file_scheme : List ℕ
file_scheme = b'f' ∷ b'i' ∷ b'l' ∷ b'e' ∷ b':' ∷ b'/' ∷ b'/' ∷ []

abbrev pub https_scheme : List ℕ
https_scheme = b'h' ∷ b't' ∷ b't' ∷ b'p' ∷ b's' ∷ b':' ∷ b'/' ∷ b'/' ∷ []

unfoldable pub file_url : List ℕ → Result (List ℕ)
file_url path =
    if ltb 65536 (length path) then err invalid_filename else ok (file_scheme ++ escape path)

-- The file system's answers on the text in the directory: its canonical path, and whether there
-- is no such file.
pub record Lookup : Type 0 where
  pub canonical : Option (List ℕ)
  pub absent : Bool

unfoldable pub local_path : List ℕ → List ℕ → List ℕ
local_path directory bytes = if starts_with_slash bytes then bytes else directory ++ b'/' ∷ bytes

unfoldable pub local_url : Bool → Lookup → List ℕ → List ℕ → Result (List ℕ)
local_url web found directory bytes = elim found.canonical [
  | some path ↦ file_url path
  | none ↦
      if web && found.absent
      then ok (https_scheme ++ bytes)
      else file_url (local_path directory bytes)
]

unfoldable pub resolve_in : (List ℕ → Bool) → Lookup → Option (List ℕ) → List ℕ → Result (List ℕ)
resolve_in is_ipv6 found none directory = ok workspace_browser_home
resolve_in is_ipv6 found (some []) directory = ok []
resolve_in is_ipv6 found (some (byte ∷ bytes)) directory =
    let web = authority is_ipv6 (byte ∷ bytes) in
    if not web && has_scheme (byte ∷ bytes)
    then ok (byte ∷ bytes)
    else local_url web found directory (byte ∷ bytes)
