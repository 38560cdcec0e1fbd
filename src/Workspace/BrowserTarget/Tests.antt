-- ===== src/Workspace/BrowserTarget/Tests.antt =====
-- Targets of each kind, and the theorems at them.
use worminal.Prelude.Bytes.{bytes_eq}
use worminal.Prelude.{ℕ, ◌≡◌, refl, Bool, true, false, none, some, List, [], ◌∷◌, ◌++◌, arith}
use worminal.Prelude.Result.{ok}
use worminal.Workspace.Recovery.{starts_with_slash}
use worminal.Workspace.BrowserTarget.{
  Lookup, file_scheme, https_scheme, authority, has_scheme, escape, file_url, local_path, local_url,
  resolve_in, is_plain, is_ascii_digit, is_ascii_alphabetic, is_ascii_alphanumeric,
  to_ascii_lowercase, lowercase, contains, position_or_end, all, follows, host_loop, named_end,
  host_end, port, hex,
}
use worminal.Workspace.BrowserTarget.Escape.{unescape, unescape-escape}
use worminal.Workspace.BrowserTarget.Resolve.{Outcome, file_of, resolve_in-Outcome}

abbrev no_address : List ℕ → Bool
no_address bytes = false

abbrev nowhere : Lookup
nowhere = record { canonical = none; absent = true }

-- A host with a dot, a path, and a name with a space.
abbrev site : List ℕ
site = b'a' ∷ b'.' ∷ b'b' ∷ b':' ∷ b'8' ∷ b'/' ∷ []

abbrev spaced : List ℕ
spaced = b'/' ∷ b' ' ∷ b'x' ∷ []

site-https : resolve_in no_address nowhere (some site) (b'/' ∷ []) ≡ ok (https_scheme ++ site)
unfolding resolve_in local_url authority has_scheme contains position_or_end port host_end host_loop
    named_end follows all is_ascii_digit is_ascii_alphabetic is_ascii_alphanumeric lowercase
    to_ascii_lowercase bytes_eq
site-https = refl

spaced-file :
    resolve_in no_address nowhere (some spaced) (b'/' ∷ [])
    ≡ ok (file_scheme ++ b'/' ∷ b'%' ∷ b'2' ∷ b'0' ∷ b'x' ∷ [])
unfolding resolve_in local_url authority has_scheme contains position_or_end port host_end host_loop
    named_end follows all is_ascii_digit is_ascii_alphabetic is_ascii_alphanumeric file_url
    local_path escape is_plain hex starts_with_slash
spaced-file = refl

resolve_in-Outcome_example :
    Outcome no_address nowhere
      (b'/' ∷ [])
      spaced
      (resolve_in no_address nowhere (some spaced) (b'/' ∷ []))
unfolding file_of
resolve_in-Outcome_example =
    resolve_in-Outcome no_address nowhere (b'/' ∷ []) spaced
      (omega arith, (omega arith, (omega arith, tt)))

unescape-escape_example : unescape (escape spaced) ≡ spaced
unescape-escape_example = unescape-escape spaced (omega arith, (omega arith, (omega arith, tt)))
