-- ===== src/Daemon/Handoff/RoundTrip.antt =====
-- What a donor writes of a tab, the receiver reads.
use worminal.Prelude.{
  ℕ, zero, suc, ◌-◌, ◌^◌, ◌≤◌, ◌<◌, ◌≡◌, refl, sym, ap, ◌∙◌, subst, false, ◌||◌, not, Option, none,
  some, List, [], ◌∷◌, ◌++◌, ltb, leb, ◌==◌, arith, length, All, append_assoc, append-nil,
  le→ltb_false,
}
use worminal.Prelude.Result.{ok, >>=-eq-ok}
use worminal.Prelude.Bytes.{u32_mod, to_be_bytes}
use worminal.Protocol.Wire.{max_payload}
use worminal.Protocol.Buffer
use worminal.Protocol.Buffer.{Buffer}
use worminal.Protocol.Buffer.Laws.{
  Fits, Appended, Appended-trans, Appended-nil, put_string-ok, put_u32-ok, put_bytes-ok,
}
use worminal.Protocol.Payload
use worminal.Protocol.Payload.Laws.{u32-to_be_bytes, string-to_be_bytes, take-append_all}
use worminal.Protocol.Packet.{finished-ok}
use worminal.Daemon.Queue
use worminal.Daemon.Queue.{Queue}
use worminal.Workspace.Launch.{until_nul}
use worminal.Workspace.Recovery.RoundTrip.{string_bytes}
use worminal.Daemon.Handoff.Tab.{
  input_queue, string, Tab, recorded, read_colors, read_input, read_metadata,
}
use worminal.Daemon.Handoff.Described.{
  received_colors, seen_metadata, seen_metadata-cut_metadata, cut_metadata,
}
use worminal.Daemon.Handoff.Send.{
  or_default, is_browser, put_fields, color_fields, fields, put_tail, color_at, put_metadata,
  metadata_bytes,
}

abbrev fields_bytes : List (List ℕ) → List ℕ
fields_bytes [] = []
fields_bytes (s ∷ ss) = string_bytes s ++ fields_bytes ss

abbrev AreShort : List (List ℕ) → Type 0
AreShort ss = All (λ s. length s < u32_mod) ss

put_fields-ok :
    (ss : List (List ℕ)) (b : Buffer) {b' : Buffer} {u : Unit}
    → Fits b
    → put_fields ss b ≡ (ok u, b')
    → AreShort ss × Appended (fields_bytes ss) b b'
unfolding put_fields
put_fields-ok [] b h e =
    (tt, let same : b ≡ _ = ground arith in subst (Appended [] b) same (Appended-nil h))
put_fields-ok (s ∷ ss) b h e =
    let (u1, b1, e1, rest) = >>=-eq-ok (Buffer.put_string s) _ b e in
    let (small, a) = put_string-ok s h e1 in
    let (all, a') = put_fields-ok ss b1 a.fits rest in ((small, all), Appended-trans a a')

-- The metadata as bytes.
abbrev tail_bytes : ℕ → Tab → List ℕ → List ℕ
tail_bytes color_names tab input =
    to_be_bytes color_names
    ++ (fields_bytes (color_fields tab.colors color_names 0)
        ++ (to_be_bytes (length input) ++ input))

abbrev all_bytes : ℕ → Tab → ℕ → List ℕ → List ℕ
all_bytes color_names tab pid input =
    to_be_bytes (is_browser tab.url)
    ++ (to_be_bytes tab.mode
        ++ (to_be_bytes tab.cursor
            ++ (to_be_bytes pid
                ++ (fields_bytes (fields tab) ++ tail_bytes color_names tab input))))

put_tail-ok :
    (color_names : ℕ) (tab : Tab) (input : List ℕ) (b : Buffer) {b' : Buffer} {u : Unit}
    → Fits b
    → put_tail color_names tab input b ≡ (ok u, b')
    → AreShort (color_fields tab.colors color_names 0)
      × Appended (tail_bytes color_names tab input) b b'
unfolding put_tail
put_tail-ok color_names tab input b h e =
    let (_, b1, e1, k1) = >>=-eq-ok (Buffer.put_u32 color_names) _ b e in
    let (_, b2, e2, k2) = >>=-eq-ok (put_fields (color_fields tab.colors color_names 0)) _ b1 k1 in
    let (_, b3, e3, k3) = >>=-eq-ok (Buffer.put_u32 (length input)) _ b2 k2 in
    let a1 = put_u32-ok color_names h e1 in
    let (short, a2) = put_fields-ok (color_fields tab.colors color_names 0) b1 a1.fits e2 in
    let a3 = put_u32-ok (length input) a2.fits e3 in
    (
      short,
      Appended-trans a1 (Appended-trans a2 (Appended-trans a3 (put_bytes-ok input a3.fits k3))),
    )

put_metadata-ok :
    (color_names : ℕ) (tab : Tab) (pid : ℕ) (input : List ℕ) (b : Buffer) {b' : Buffer} {u : Unit}
    → Fits b
    → put_metadata color_names tab pid input b ≡ (ok u, b')
    → AreShort (fields tab)
      × AreShort (color_fields tab.colors color_names 0)
      × Appended (all_bytes color_names tab pid input) b b'
unfolding put_metadata
put_metadata-ok color_names tab pid input b h e =
    let (_, b1, e1, k1) = >>=-eq-ok (Buffer.put_u32 (is_browser tab.url)) _ b e in
    let (_, b2, e2, k2) = >>=-eq-ok (Buffer.put_u32 tab.mode) _ b1 k1 in
    let (_, b3, e3, k3) = >>=-eq-ok (Buffer.put_u32 tab.cursor) _ b2 k2 in
    let (_, b4, e4, k4) = >>=-eq-ok (Buffer.put_u32 pid) _ b3 k3 in
    let (_, b5, e5, k5) = >>=-eq-ok (put_fields (fields tab)) _ b4 k4 in
    let a1 = put_u32-ok (is_browser tab.url) h e1 in
    let a2 = put_u32-ok tab.mode a1.fits e2 in
    let a3 = put_u32-ok tab.cursor a2.fits e3 in
    let a4 = put_u32-ok pid a3.fits e4 in
    let (short, a5) = put_fields-ok (fields tab) b4 a4.fits e5 in
    let (short', a6) = put_tail-ok color_names tab input b5 a5.fits k5 in
    (
      short,
      short',
      Appended-trans a1
          (Appended-trans a2 (Appended-trans a3 (Appended-trans a4 (Appended-trans a5 a6)))),
    )

string-bytes :
    (s rest : List ℕ)
    → length s < u32_mod
    → string (string_bytes s ++ rest) ≡ (ok (until_nul s), rest)
unfolding string
string-bytes s rest h = rw (append_assoc (to_be_bytes (length s)) s, string-to_be_bytes s rest h)

read_colors-bytes :
    (colors : Option (List (Option (List ℕ)))) (rounds index : ℕ) (rest : List ℕ)
    → AreShort (color_fields colors rounds index)
    → read_colors rounds (fields_bytes (color_fields colors rounds index) ++ rest)
      ≡ (ok (received_colors (color_fields colors rounds index)), rest)
unfolding read_colors color_fields
read_colors-bytes colors zero index rest h = refl
read_colors-bytes colors (suc rounds) index rest h = rw (
  append_assoc (string_bytes (color_at colors index))
      (fields_bytes (color_fields colors rounds (suc index))) rest,
  string-bytes (color_at colors index)
      (fields_bytes (color_fields colors rounds (suc index)) ++ rest) h.0,
  read_colors-bytes colors rounds (suc index) rest h.1,
)

take_whole : (bs : List ℕ) → Payload.take (length bs) bs ≡ (ok bs, [])
take_whole bs =
    ap (Payload.take (length bs)) (sym (append-nil bs)) ∙ take-append_all bs [] (length bs) refl

read_input-bytes :
    (input : List ℕ)
    → length input ≤ input_queue
    → read_input (to_be_bytes (length input) ++ input)
      ≡ (ok (record { bytes = input; sent = 0; limit = input_queue }), [])
unfolding read_input Queue.from_bytes
read_input-bytes input h = rw (
  u32-to_be_bytes (length input) input (omega arith),
  le→ltb_false input_queue (length input) h,
  take_whole input,
  le→ltb_false input_queue (length input) h,
)

-- The numbers of a tab that can be handed over.
pub record IsSendable (color_names : ℕ) (tab : Tab) (pid : ℕ) (input : List ℕ) : Type 0 where
  pub word_mode : tab.mode < u32_mod
  pub known_cursor : tab.cursor ≤ 7
  pub positive_pid : pid < 2 ^ 31
  pub word_names : color_names < u32_mod
  pub short_input : length input ≤ input_queue

is_browser-le : (url : Option (List ℕ)) → is_browser url ≤ 1
unfolding is_browser
is_browser-le none = omega arith
is_browser-le (some url) = omega arith

admitted :
    (browser style child : ℕ)
    → browser ≤ 1
    → style ≤ 7
    → child < 2 ^ 31
    → ltb 1 browser || (ltb 7 style || leb (2 ^ 31) child) ≡ false
admitted browser style child h k l = ground arith

equal_names : (n : ℕ) → not (n == n) ≡ false
equal_names n = ground arith

five_fields :
    (a b c d e rest : List ℕ)
    → fields_bytes (a ∷ b ∷ c ∷ d ∷ e ∷ []) ++ rest
      ≡ string_bytes a
        ++ (string_bytes b ++ (string_bytes c ++ (string_bytes d ++ (string_bytes e ++ rest))))
five_fields a b c d e rest = rw (
  append_assoc (string_bytes a),
  append_assoc (string_bytes b),
  append_assoc (string_bytes c),
  append_assoc (string_bytes d),
  append_assoc (string_bytes e),
)

read_metadata-bytes :
    (color_names : ℕ) (tab : Tab) (pid : ℕ) (input : List ℕ)
    → IsSendable color_names tab pid input
    → AreShort (fields tab)
    → AreShort (color_fields tab.colors color_names 0)
    → read_metadata color_names tab.id (all_bytes color_names tab pid input)
      ≡ (ok (seen_metadata color_names tab pid input), [])
unfolding read_metadata recorded fields Payload.finish
read_metadata-bytes color_names tab pid input i h k = rw (
  u32-to_be_bytes (is_browser tab.url) _ (omega (arith, is_browser-le tab.url)),
  u32-to_be_bytes tab.mode _ i.word_mode,
  u32-to_be_bytes tab.cursor _ (omega (arith, i.known_cursor)),
  u32-to_be_bytes pid _ (omega (arith, i.positive_pid)),
  admitted (is_browser tab.url) tab.cursor pid (is_browser-le tab.url) i.known_cursor
      i.positive_pid,
  five_fields tab.title tab.initial_title tab.directory tab.clipboard (or_default tab.url),
  string-bytes tab.title _ h.0,
  string-bytes tab.initial_title _ h.1.0,
  string-bytes tab.directory _ h.1.1.0,
  string-bytes tab.clipboard _ h.1.1.1.0,
  string-bytes (or_default tab.url) _ h.1.1.1.1.0,
  u32-to_be_bytes color_names _ i.word_names,
  equal_names color_names,
  read_colors-bytes tab.colors color_names 0 _ k,
  read_input-bytes input i.short_input,
)

empty-Fits : (limit : ℕ) → Fits (Buffer.with_limit limit)
unfolding Buffer.with_limit
empty-Fits limit = omega arith

empty_bytes : (limit : ℕ) (bytes : List ℕ) → (Buffer.with_limit limit).bytes ++ bytes ≡ bytes
unfolding Buffer.with_limit
empty_bytes limit bytes = refl

-- If the donor's metadata of a tab are encoded, and its numbers are such that it can be handed over, the
-- receiver reads them whole, as the same tab, process and input; but each string ends before its first NUL
-- byte, there are as many colours as names, a colour that is then empty is no colour, and colours none of
-- which is left are none.
pub read_metadata-metadata_bytes :
    (color_names : ℕ) (tab : Tab) (pid : ℕ) (input bytes : List ℕ)
    → IsSendable color_names tab pid input
    → metadata_bytes color_names tab pid input ≡ ok bytes
    → read_metadata color_names tab.id bytes ≡ (ok (cut_metadata color_names tab pid input), [])
unfolding metadata_bytes
read_metadata-metadata_bytes color_names tab pid input bytes i e =
    let limit = max_payload - 4 in
    let (u, b, out, same) = finished-ok _ bytes e in
    let (h, k, a) =
      put_metadata-ok color_names tab pid input (Buffer.with_limit limit) (empty-Fits limit) out in
    subst
      (λ bs.
        read_metadata color_names tab.id bs ≡ (ok (cut_metadata color_names tab pid input), []))
      (sym (empty_bytes limit (all_bytes color_names tab pid input)) ∙ sym a.contents ∙ same)
      (read_metadata-bytes color_names tab pid input i h k
        ∙ ap (λ read. (ok read, [])) (seen_metadata-cut_metadata color_names tab pid input))
