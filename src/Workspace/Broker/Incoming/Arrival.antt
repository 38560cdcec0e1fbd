-- ===== src/Workspace/Broker/Incoming/Arrival.antt =====
-- However a request arrives, it is read.
use worminal.Prelude.{
  ℕ, zero, suc, ◌+◌, ◌≤◌, ◌<◌, ◌≡◌, refl, sym, ap, ◌∙◌, Option, none, some, List, [], ◌∷◌, ◌++◌,
  length, drop, concat, All, length-append, drop_all, append-nil, arith, inl, inr, subst, ◌⊎◌,
}
use worminal.Prelude.Result.{Result, ok, err}
use worminal.Protocol.Packet.{Packet}
use worminal.Protocol.Decoder.{Decoder, start, Pushed, push}
use worminal.Protocol.Decoder.Resume.{IsOpen, advance, resume, push-append}
use worminal.Protocol.Decoder.Open.{Accounts, push-Accounts}
use worminal.Workspace.Broker.{Request, decode}
use worminal.Workspace.Broker.Incoming.{
  default, last_packet, scanned, scan, State, decoded, deliver, scan_bytes, peer_bytes, deliver_or,
  scan_read, read_rounds,
}

-- The decoder gives the packet at the last of these bytes.
abbrev pub Completes : Packet → Decoder → List ℕ → Type 0
Completes p d bytes = push d bytes ≡ (ok (length bytes, some p), start)

advance-ok :
    (k n : ℕ) (r : Pushed) (o : Option Packet) (d : Decoder)
    → advance k r ≡ (ok (k + n, o), d)
    → r ≡ (ok (n, o), d)
advance-ok k n (ok (m, q), d') o d e = ground arith
advance-ok k n (err x, d') o d e = cc

-- A part of what completes a packet is taken whole, gives none, and leaves the rest to complete it.
Completes-resume :
    (p : Packet) (r : Pushed) (xs ys : List ℕ)
    → 0 < length ys
    → Accounts (length xs) r
    → resume r ys ≡ (ok (length (xs ++ ys), some p), start)
    → (d' : Decoder) × (r ≡ (ok (length xs, none), d')) × IsOpen d' × Completes p d' ys
Completes-resume p (ok (n, none), d') xs ys h a e = (
  d',
  ap (λ m. (ok (m, none), d')) a.0,
  a.1,
  advance-ok n (length ys) (push d' ys) (some p) start
      (e ∙ ap (λ m. (ok (m, some p), start)) (omega (arith, length-append xs ys, a.0))),
)
Completes-resume p (ok (n, some q), d') xs ys h a e = absurd (ground (arith, length-append xs ys))
Completes-resume p (err x, d') xs ys h a e = cc

-- The last bytes that complete a packet give it, and any others leave it to the rest.
scan_last :
    (p : Packet) (d : Decoder) (byte : ℕ) (bytes : List ℕ) (rounds : ℕ)
    → Completes p d (byte ∷ bytes)
    → scan (suc rounds) d (byte ∷ bytes) ≡ (ok (some p), start)
unfolding scan scanned last_packet
scan_last p d byte bytes rounds e =
    rw (e, drop_all (length (byte ∷ bytes)) (byte ∷ bytes) (omega arith)) refl

scan_part :
    (p : Packet) (d : Decoder) (byte : ℕ) (bytes rest : List ℕ) (rounds : ℕ)
    → 0 < length rest
    → IsOpen d
    → Completes p d ((byte ∷ bytes) ++ rest)
    → (d' : Decoder) × (scan (suc rounds) d (byte ∷ bytes) ≡ (ok none, d'))
      × IsOpen d'
      × Completes p d' rest
unfolding scan scanned
scan_part p d byte bytes rest rounds h open_ e =
    let (d', taken, open', completes) =
      Completes-resume p (push d (byte ∷ bytes)) (byte ∷ bytes) rest h
        (push-Accounts d (byte ∷ bytes) open_)
        (sym (push-append d (byte ∷ bytes) rest open_) ∙ e) in
    (
      d',
      ap (scanned (scan rounds) (byte ∷ bytes)) taken
          ∙ ap (scan rounds d') (drop_all (length (byte ∷ bytes)) (byte ∷ bytes) (omega arith)),
      open',
      completes,
    )

abbrev pub IsNonempty : List ℕ → Type 0
IsNonempty bytes = 0 < length bytes

module _ {F W : Type 0} (receive : W → Result (List F) × W)
    (peer_read : W → Result (List ℕ) × W) where
  -- The peer's reads give these chunks in order.
  abbrev pub Delivers : W → List (List ℕ) → W → Type 0
  Delivers w [] w' = w ≡ w'
  Delivers w (chunk ∷ chunks) w' = (v : W) × (peer_read w ≡ (ok chunk, v)) × Delivers v chunks w'

  -- The file has come, and the chunks that are to come complete the packet.
  pub record Awaits (p : Packet) (file : F) (w' : W) (chunks : List (List ℕ)) (s : State F W)
      : Type 0 where
    pub has_file : s.0.output ≡ some file
    pub is_open : IsOpen s.0.decoder
    pub completes : Completes p s.0.decoder (concat chunks)
    pub delivers : Delivers s.1 chunks w'
    pub nonempty : All IsNonempty chunks
    pub waiting : 0 < length chunks

  abbrev Out : Type 0
  Out = Result (Option (Request F)) × (State F W)

  abbrev Finished : Packet → F → W → Out → Type 0
  Finished p file w' out = out ≡ (decoded (decode p file), (default, w'))

  -- With rounds for all chunks the packet is delivered; else the rest of the chunks is awaited.
  abbrev pub Progress : Packet → F → W → ℕ → List (List ℕ) → Out → Type 0
  Progress p file w' n chunks out =
      ((length chunks ≤ n) × Finished p file w' out)
      ⊎ ((n < length chunks)
          × ((s' : State F W) × (out ≡ (ok none, s')) × Awaits p file w' (drop n chunks) s'))

  one_more :
      (p : Packet) (file : F) (w' : W) (n : ℕ) (chunk : List ℕ) (chunks : List (List ℕ)) (out : Out)
      → Progress p file w' n chunks out
      → Progress p file w' (suc n) (chunk ∷ chunks) out
  one_more p file w' n chunk chunks out (inl (h, e)) = inl (omega arith, e)
  one_more p file w' n chunk chunks out (inr (h, (s', e, a))) = inr (omega arith, (s', e, a))

  pub read_rounds-Progress :
      (p : Packet) (file : F) (w' : W) (n : ℕ) (chunks : List (List ℕ)) (s : State F W)
      → Awaits p file w' chunks s
      → Progress p file w' n chunks (read_rounds receive peer_read n s)
  unfolding read_rounds peer_bytes scan_read scan_bytes deliver_or deliver default
  read_rounds-Progress p file w' zero chunks s a = inr (a.waiting, (s, refl, a))
  read_rounds-Progress p file w' (suc n) [] s a = absurd (ground (arith, a.waiting))
  read_rounds-Progress p file w' (suc n) ([] ∷ chunks) s a = absurd (ground (arith, a.nonempty))
  read_rounds-Progress p file w' (suc n) ((byte ∷ bytes) ∷ []) s a =
      let (v, e, same) = a.delivers in
      let last =
        scan_last p s.0.decoder byte bytes (length bytes)
          (subst (Completes p s.0.decoder) (append-nil (byte ∷ bytes)) a.completes) in
      inl (
        omega arith,
        rw (e, last, a.has_file) (ap (λ u. (decoded (decode p file), (default, u))) same),
      )
  read_rounds-Progress p file w' (suc n) ((byte ∷ bytes) ∷ (chunk ∷ chunks)) s a =
      let (v, e, more) = a.delivers in
      let (d', scanned', open', completes) =
        scan_part p s.0.decoder byte bytes (concat (chunk ∷ chunks)) (length bytes)
          (omega (arith, length-append chunk (concat chunks), a.nonempty.1.0)) a.is_open
          a.completes in
      let s' : State F W = (record s.0 { decoder = d' }, v) in
      rw (e, scanned')
        (one_more p file w' n (byte ∷ bytes) (chunk ∷ chunks) _ (
          read_rounds-Progress p file w' n (chunk ∷ chunks) s' (record {
            has_file = a.has_file;
            is_open = open';
            completes = completes;
            delivers = more;
            nonempty = a.nonempty.1;
            waiting = omega arith;
          })))
