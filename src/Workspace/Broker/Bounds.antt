-- ===== src/Workspace/Broker/Bounds.antt =====
-- What the owner lets through.
use worminal.Prelude.{
  ℕ, zero, suc, ◌≤◌, ◌≡◌, refl, ap, List, ◌∷◌, length, ltb, ◌==◌, arith, ◌||◌, not, Bool-cases, inl,
  inr, subst, ltb_false→le,
}
use worminal.Prelude.Result.{ok, pure, >>=-eq-ok}
use worminal.Protocol.Payload
use worminal.Protocol.Packet.{Packet}
use worminal.Protocol.Wire.{wire_hello}
use worminal.Workspace.Recovery.{starts_with_slash}
use worminal.Workspace.Broker.{Request, read_strings, strings, is_empty, read_request, decode}
use worminal.Workspace.Broker.RoundTrip.{IsRequest}

read_strings-length :
    (n : ℕ) (bytes : List ℕ) {ss : List (List ℕ)} {rest : List ℕ}
    → read_strings n bytes ≡ (ok ss, rest)
    → length ss ≡ n
unfolding read_strings
read_strings-length zero bytes e = ground arith
read_strings-length (suc n) bytes {ss} {rest} e =
    let (s, b1, e1, k1) = >>=-eq-ok Payload.string _ bytes e in
    let (others, b2, e2, k2) = >>=-eq-ok (read_strings n) (λ l. pure (s ∷ l)) b1 k1 in
    let same : s ∷ others ≡ ss = ground arith in
    subst (λ l. length l ≡ suc n) same (ap suc (read_strings-length n b1 e2))

strings-length :
    (bytes : List ℕ) {ss : List (List ℕ)} {rest : List ℕ}
    → strings bytes ≡ (ok ss, rest)
    → length ss ≤ 65536
unfolding strings
strings-length bytes e =
    let (count, b1, e1, k1) = >>=-eq-ok Payload.u32 _ bytes e in
    elim (Bool-cases (ltb 65536 count)) [
      | inl many ↦ absurd (ground arith)
      | inr few ↦ omega (arith, read_strings-length count b1 (rw few at k1), ltb_false→le _ _ few)
    ]

module _ {F : Type 0} where
  read_request-IsRequest :
      (output : F) (bytes : List ℕ) {r : Request F} {rest : List ℕ}
      → read_request output bytes ≡ (ok r, rest)
      → IsRequest r × (r.output ≡ output)
  unfolding read_request
  read_request-IsRequest output bytes {r} e =
      let (directory, b1, e1, k1) = >>=-eq-ok Payload.string _ bytes e in
      let (args, b2, e2, k2) = >>=-eq-ok strings _ b1 k1 in
      let (environment, b3, e3, k3) = >>=-eq-ok strings _ b2 k2 in
      let (u, b4, e4, k4) = >>=-eq-ok Payload.finish _ b3 k3 in
      elim (Bool-cases (is_empty args || not (starts_with_slash directory))) [
        | inl bad ↦ absurd (ground arith)
        | inr fine ↦
            let read : Request F = record {
              args = args;
              directory = directory;
              environment = environment;
              output = output;
            } in
            let same : read ≡ r = ground arith in
            subst (λ q. IsRequest q × (q.output ≡ output)) same
              (
                record {
                  has_args = ground arith;
                  is_absolute = ground arith;
                  few_args = strings-length b1 e2;
                  few_entries = strings-length b2 e3;
                },
                refl,
              )
      ]

  -- What `decode` returns came as a greeting of no tab and is a request the owner accepts: it has an argument, an absolute directory, and at most
  -- 65536 arguments and as many entries; and it has the file that was given.
  pub decode-IsRequest :
      (packet : Packet) (output : F) (r : Request F)
      → decode packet output ≡ ok r
      → (packet.kind ≡ wire_hello) × (packet.tab ≡ 0) × IsRequest r × (r.output ≡ output)
  unfolding decode
  decode-IsRequest packet output r e =
      elim (Bool-cases (not (packet.kind == wire_hello) || not (packet.tab == 0))) [
        | inl bad ↦ absurd (ground arith)
        | inr fine ↦
            let out = read_request output packet.body in
            let (is_request, same) =
              read_request-IsRequest output packet.body (ap (λ x. (x, out.1)) (rw fine at e)) in
            (ground arith, ground arith, is_request, same)
      ]
