-- ===== src/Workspace/Broker/Incoming/Attend.antt =====
-- The calls of `Incoming::read` that a request takes.
use worminal.Prelude.{
  ℕ, zero, suc, ◌*◌, ◌≤◌, ◌<◌, ◌≡◌, refl, sym, ap, ◌∙◌, Option, none, some, List, [], ◌∷◌, length,
  drop, concat, All, length-drop, append-nil, arith, inl, inr, subst,
}
use worminal.Prelude.Result.{Result, Exec, ok, ◌>>=◌, pure}
use worminal.Protocol.Packet.{Packet}
use worminal.Protocol.Decoder.{Decoder, start}
use worminal.Protocol.Decoder.Open.{start-IsOpen}
use worminal.Protocol.Packet
use worminal.Protocol.Decoder.RoundTrip.{wire, push-wire, encode-IsEncodable}
use worminal.Workspace.Broker.{Request, encode, decode}
use worminal.Workspace.Broker.RoundTrip.{hello, IsRequest, encode-ok, decode-hello}
use worminal.Workspace.Broker.Incoming.{default, State, admit, accept, decoded, read_rounds, read}
use worminal.Workspace.Broker.Incoming.Arrival.{
  Completes, Delivers, IsNonempty, Awaits, read_rounds-Progress,
}

module _ {F W : Type 0} (receive : W → Result (List F) × W)
    (peer_read : W → Result (List ℕ) × W) where
  -- The readiness source: it calls `read` until a request is there.
  unfoldable pub attended :
      Exec (State F W) (Option (Request F))
      → Option (Request F)
      → Exec (State F W) (Option (Request F))
  attended next none = next
  attended next (some request) = pure (some request)

  unfoldable pub attend : ℕ → Exec (State F W) (Option (Request F))
  attend zero = pure none
  attend (suc calls) = read receive peer_read >>= attended (attend calls)

  -- The files are received once.
  read-open :
      (file : F) (output : Option F) (d : Decoder) (w : W)
      → output ≡ some file
      → let s : State F W = (record { output = output; decoder = d }, w) in
        read receive peer_read s ≡ read_rounds receive peer_read 4 s
  unfolding read accept
  read-open file none d w e = cc
  read-open file (some f) d w e = refl

  -- With four reads to a call, enough calls give the request.
  attend-Awaits :
      (p : Packet) (file : F) (w' : W) (calls : ℕ) (chunks : List (List ℕ)) (s : State F W)
      (r : Request F)
      → decode p file ≡ ok r
      → length chunks ≤ 4 * calls
      → Awaits receive peer_read p file w' chunks s
      → attend calls s ≡ (ok (some r), (default, w'))
  unfolding attend attended decoded
  attend-Awaits p file w' zero chunks s r e h a = absurd (omega (arith, a.waiting))
  attend-Awaits p file w' (suc calls) chunks s r e h a =
      elim (read_rounds-Progress receive peer_read p file w' 4 chunks s a) [
        | inl (_, done) ↦ rw (read-open file s.0.output s.0.decoder s.1 a.has_file, done, e) refl
        | inr (long, (s', out, a')) ↦
            rw (read-open file s.0.output s.0.decoder s.1 a.has_file, out)
              (attend-Awaits p file w' calls (drop 4 chunks) s' r e
                (omega (arith, length-drop 4 chunks)) a')
      ]

  read-default :
      (file : F) (w v : W)
      → receive w ≡ (ok (file ∷ []), v)
      → read receive peer_read (default, w)
        ≡ read receive peer_read (record { output = some file; decoder = start }, v)
  unfolding read accept default admit
  read-default file w v e = rw e refl

  attend-default :
      (file : F) (w v : W) (calls : ℕ)
      → receive w ≡ (ok (file ∷ []), v)
      → attend (suc calls) (default, w)
        ≡ attend (suc calls) (record { output = some file; decoder = start }, v)
  unfolding attend
  attend-default file w v calls e = rw (read-default file w v e) refl

  hello-Completes :
      (r : Request F) (bytes : List ℕ)
      → Packet.encode (hello r) ≡ ok bytes
      → Completes (hello r) start bytes
  hello-Completes r bytes sent =
      let (encodable, is_wire) =
        encode-IsEncodable (hello r) bytes sent (omega arith) (omega arith) in
      subst (Completes (hello r) start) (append-nil (wire (hello r)) ∙ sym is_wire) (
        push-wire (hello r) [] encodable
        ∙ ap (λ l. (ok (length l, some (hello r)), start)) (sym (append-nil (wire (hello r)))))

  -- If `encode` returns bytes for a request that the owner accepts, one file comes with them, and the
  -- connection gives the bytes in chunks that are not empty, then with a fourth as many calls of `read` as
  -- there are chunks a fresh `Incoming` returns the request with that file, and is fresh again.
  pub attend-encode :
      (r : Request F) (bytes : List ℕ) (chunks : List (List ℕ)) (file : F) (w v w' : W) (calls : ℕ)
      → encode r ≡ ok bytes
      → IsRequest r
      → receive w ≡ (ok (file ∷ []), v)
      → Delivers receive peer_read v chunks w'
      → All IsNonempty chunks
      → concat chunks ≡ bytes
      → 0 < length chunks
      → length chunks ≤ 4 * calls
      → attend calls (default, w) ≡ (ok (some (record r { output = file })), (default, w'))
  attend-encode r bytes chunks file w v w' zero e i came gives nonempty whole some_chunk enough =
      absurd (omega arith)
  attend-encode r bytes chunks file w v w' (suc calls) e i came gives nonempty whole some_chunk
        enough =
      let (short, sent) = encode-ok r bytes e in
      let s : State F W = (record { output = some file; decoder = start }, v) in
      attend-default file w v calls came
      ∙ attend-Awaits (hello r) file w' (suc calls) chunks s (record r { output = file })
          (decode-hello r file short i) enough
          (record {
            has_file = refl;
            is_open = start-IsOpen;
            completes =
                subst (Completes (hello r) start) (sym whole) (hello-Completes r bytes sent);
            delivers = gives;
            nonempty = nonempty;
            waiting = some_chunk;
          })
