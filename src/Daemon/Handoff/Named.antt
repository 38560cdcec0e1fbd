-- ===== src/Daemon/Handoff/Named.antt =====
-- A tab that is read from a snapshot has the identifier that was read for it.
use worminal.Prelude.{ℕ, ◌≡◌, refl, ap, subst, ◌||◌, not, List, ltb, ◌==◌, if_both}
use worminal.Prelude.Result.{Exec, Ensures, Ensures-bind}
use worminal.Protocol.Wire.{max_payload}
use worminal.Protocol.Payload
use worminal.Protocol.Payload.{Payload}
use worminal.Daemon.Handoff.Tab.{
  take, number, Metadata, string, recorded, read_colors, read_input, read_metadata,
}
use worminal.Daemon.Handoff.Terminal.{
  Host, StagedTab, Rest, lift, on_cursor, decode_terminal, decode_tab,
}

abbrev HasId : ℕ → Metadata → Type 0
HasId id metadata = metadata.tab.id ≡ id

read_metadata-HasId :
    (color_names id : ℕ) (bytes : List ℕ)
    → Ensures (HasId id) (read_metadata color_names id bytes).0
unfolding read_metadata recorded
read_metadata-HasId color_names id bytes =
    Ensures-bind (HasId id) Payload.u32 _ bytes λ browser b1 _.
      Ensures-bind (HasId id) Payload.u32 _ b1 λ mode b2 _.
        Ensures-bind (HasId id) Payload.u32 _ b2 λ style b3 _.
          Ensures-bind (HasId id) Payload.u32 _ b3 λ child b4 _.
            if_both (λ (m : Exec Payload Metadata). Ensures (HasId id) (m b4).0)
              (ltb 1 browser || _) _ _ (λ _. tt)
              λ _. Ensures-bind (HasId id) string _ b4 λ title b5 _.
                Ensures-bind (HasId id) string _ b5 λ initial_title b6 _.
                  Ensures-bind (HasId id) string _ b6 λ directory b7 _.
                    Ensures-bind (HasId id) string _ b7 λ clipboard b8 _.
                      Ensures-bind (HasId id) string _ b8 λ url b9 _.
                        Ensures-bind (HasId id) Payload.u32 _ b9 λ count b10 _.
                          if_both (λ (m : Exec Payload Metadata). Ensures (HasId id) (m b10).0)
                            (not (count == color_names)) _ _ (λ _. tt)
                            λ _.
                              Ensures-bind (HasId id) (read_colors color_names) _ b10
                                λ colors b11 _.
                                  Ensures-bind (HasId id) read_input _ b11 λ input b12 _.
                                    Ensures-bind (HasId id) Payload.finish _ b12 λ u b13 _. refl

module _ {E D P Y : Type 0} (host : Host E D P Y) where
  abbrev pub IsNamed : ℕ → StagedTab E D Y → Type 0
  IsNamed id staged = staged.tab.id ≡ id

  abbrev Names : ℕ → Rest D → Exec (Rest D) (StagedTab E D Y) → Type 0
  Names id rest m = Ensures (IsNamed id) (m rest).0

  pub decode_tab-IsNamed :
      (color_names id : ℕ) (rest : Rest D) → Names id rest (decode_tab host color_names id)
  unfolding decode_tab
  decode_tab-IsNamed color_names id rest =
      Ensures-bind (IsNamed id) (on_cursor number) _ rest λ size r1 _.
        if_both (Names id r1) (ltb max_payload size) _ _ (λ _. tt)
          λ _. Ensures-bind (IsNamed id) (on_cursor (take size)) _ r1 λ bytes r2 _.
            Ensures-bind (IsNamed id) (lift (read_metadata color_names id bytes).0) _ r2
              λ metadata r3 e.
                let named : HasId id metadata =
                  subst (λ r. Ensures (HasId id) r) (ap (λ r. r.0) e)
                    (read_metadata-HasId color_names id bytes) in
                if_both (Names id r3) metadata.browser _ _ (λ _. named)
                  λ _.
                    Ensures-bind (IsNamed id) (decode_terminal host metadata) _ r3
                      λ terminal r4 _. named
