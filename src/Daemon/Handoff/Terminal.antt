-- ===== src/Daemon/Handoff/Terminal.antt =====
-- `decode_tab`: a tab of the snapshot with its terminal.
use worminal.Prelude.{ℕ, ◌-◌, ◌^◌, Option, none, some, List, [], ◌∷◌, ltb, ◌==◌, if◌then◌else◌}
use worminal.Prelude.Result.{Result, Exec, ok, err, invalid_data, ◌>>=◌, ◌>>◌, pure, fail}
use worminal.Protocol.Wire.{max_payload}
use worminal.Daemon.Queue.{Queue}
use worminal.Daemon.Handoff.Tab.{Cursor, take, number, remaining, Tab, Metadata, read_metadata}

pub data Printer (D : Type 0) : Type 0 where
  client : Printer D
  file : D → Printer D
  disabled : Printer D

-- The terminal engine's import, with the number of bytes it used, and the system's answers: `E` is the
-- type of engines, `D` that of descriptors, `P` that of pinned processes and `Y` that of terminals. Words
-- that have a sign are given by their 32 bits.
pub record Host (E D P Y : Type 0) : Type 0 where
  pub import_prefix : List ℕ → Result (E × ℕ)
  pub output_kind : E → ℕ
  pub pending : E → List ℕ
  pub remote_scroll : E → ℕ
  pub prepare : ℕ → Result P
  pub validate : D → P → Result Y

pub record PreparedTerminal (E D Y : Type 0) : Type 0 where
  pub engine : E
  pub pty : Y
  pub input : Queue
  pub pending : List ℕ
  pub remote_scroll : ℕ
  pub printer : Printer D

pub record StagedTab (E D Y : Type 0) : Type 0 where
  pub tab : Tab
  pub terminal : Option (PreparedTerminal E D Y)

-- What has not been read of the snapshot, and the descriptors that have not been taken.
abbrev pub Rest : Type 0 → Type 0
Rest D = Cursor × List D

abbrev pub lift {ℓ} : {S A : Type ℓ} → Result A → Exec S A
lift r s = (r, s)

module _ {D : Type 0} where
  unfoldable pub on_cursor : {A : Type 0} → Exec Cursor A → Exec (Rest D) A
  on_cursor m (cursor, descriptors) = let (r, cursor') = m cursor in (r, (cursor', descriptors))

  unfoldable pub next : Exec (Rest D) D
  next (cursor, []) = (err invalid_data, (cursor, []))
  next (cursor, descriptor ∷ descriptors) = (ok descriptor, (cursor, descriptors))

  unfoldable pub printer_of : ℕ → D → Result (Printer D)
  printer_of kind output =
      if kind == 0
      then ok (file output)
      else if kind == 1
      then ok client
      else if kind == 2 ^ 32 - 1
      then ok disabled
      else err invalid_data

module _ {E D P Y : Type 0} (host : Host E D P Y) where
  unfoldable pub decode_terminal : Metadata → Exec (Rest D) (PreparedTerminal E D Y)
  unfolding on_cursor next printer_of
  decode_terminal metadata = do
    bytes ← λ rest. (ok (remaining rest.0), rest)
    imported ← lift (host.import_prefix bytes)
    on_cursor (take imported.1)
    process ← lift (host.prepare metadata.child)
    master ← next
    output ← next
    pty ← lift (host.validate master process)
    printer ← lift (printer_of (host.output_kind imported.0) output)
    pure (record {
      engine = imported.0;
      pty = pty;
      input = metadata.input;
      pending = host.pending imported.0;
      remote_scroll = host.remote_scroll imported.0;
      printer = printer;
    })

  unfoldable pub decode_tab : ℕ → ℕ → Exec (Rest D) (StagedTab E D Y)
  unfolding decode_terminal
  decode_tab color_names id = do
    size ← on_cursor number
    if ltb max_payload size then fail invalid_data else do
      bytes ← on_cursor (take size)
      metadata ← lift (read_metadata color_names id bytes).0
      if metadata.browser then pure (record { tab = metadata.tab; terminal = none }) else do
        terminal ← decode_terminal metadata
        pure (record { tab = metadata.tab; terminal = some terminal })
