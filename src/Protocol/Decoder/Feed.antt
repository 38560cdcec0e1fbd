-- ===== src/Protocol/Decoder/Feed.antt =====
-- A caller's loop over `Decoder::push`: it feeds what each call leaves until the input is empty, as the
-- loops of src/daemon/src/service_io.rs, src/daemon/src/cli.rs and src/workspace/src/broker.rs do.
use worminal.Prelude.{
  ℕ, zero, suc, ◌+◌, ◌≤◌, ◌<◌, ◌≡◌, refl, sym, ap, ◌∙◌, none, some, List, [], ◌∷◌, ◌++◌, length,
  drop, length-drop, drop-append, drop-append_past, drop_all, append-nil, concat, arith,
}
use worminal.Prelude.Result.{ErrorKind, ok, err, invalid_data}
use worminal.Protocol.Packet.{Packet}
use worminal.Protocol.Decoder.{Decoder, failed, start, Pushed, push}
use worminal.Protocol.Decoder.Resume.{IsOpen, advance, resume, push-append}
use worminal.Protocol.Decoder.Open.{Accounts, push-Accounts, start-IsOpen}

-- How the loop ended: the input is used up, a call failed, or the rounds allowed were too few.
pub data Ending : Type 0 where
  drained : Ending
  refused : ErrorKind → Ending
  unfinished : Ending

pub record Fed : Type 0 where
  pub packets : List Packet
  pub ending : Ending
  pub decoder : Decoder

abbrev pub emit : Packet → Fed → Fed
emit p f = record f { packets = p ∷ f.packets }

abbrev pub settle : List ℕ → Pushed → (Decoder → List ℕ → Fed) → Fed
settle input (ok (n, none), d) next = next d (drop n input)
settle input (ok (n, some p), d) next = emit p (next d (drop n input))
settle input (err e, d) next = record { packets = []; ending = refused e; decoder = d }

unfoldable pub feed_loop : ℕ → Decoder → List ℕ → Fed
feed_loop fuel d [] = record { packets = []; ending = drained; decoder = d }
feed_loop zero d (x ∷ xs) = record { packets = []; ending = unfinished; decoder = d }
feed_loop (suc fuel) d (x ∷ xs) = settle (x ∷ xs) (push d (x ∷ xs)) (feed_loop fuel)

-- Every call takes a byte at least, so as many rounds as bytes are enough.
unfoldable pub feed : Decoder → List ℕ → Fed
unfolding feed_loop
feed d input = feed_loop (length input) d input

-- The next chunk is fed only if the one before it was used up.
abbrev pub and_feed : Fed → (Decoder → Fed) → Fed
and_feed f next = elim f.ending [
  | drained ↦ let g = next f.decoder in record g { packets = f.packets ++ g.packets }
  | refused e ↦ f
  | unfinished ↦ f
]

unfoldable pub feed_chunks : Decoder → List (List ℕ) → Fed
feed_chunks d [] = record { packets = []; ending = drained; decoder = d }
feed_chunks d (chunk ∷ chunks) = and_feed (feed d chunk) (λ d'. feed_chunks d' chunks)

-- Two ways to go on that agree on every shorter input agree behind a call.
settle_congr :
    (input : List ℕ) (r : Pushed) (next next' : Decoder → List ℕ → Fed)
    → 0 < length input
    → Accounts (length input) r
    → ((d : Decoder) (rest : List ℕ)
        → IsOpen d
        → length rest < length input
        → next d rest ≡ next' d rest)
    → settle input r next ≡ settle input r next'
settle_congr input (ok (n, none), d) next next' h a e =
    e d (drop n input) a.1 (omega (arith, length-drop n input, a.0))
settle_congr input (ok (n, some p), d) next next' h a e =
    ap (emit p)
      (e d (drop n input) (rw a.3 start-IsOpen) (omega (arith, length-drop n input, a.0, a.1 h)))
settle_congr input (err k, d) next next' h a e = refl

-- More rounds than bytes change nothing.
feed_loop-fuel :
    (f g : ℕ) (d : Decoder) (xs : List ℕ)
    → IsOpen d
    → length xs ≤ f
    → length xs ≤ g
    → feed_loop f d xs ≡ feed_loop g d xs
unfolding feed_loop
feed_loop-fuel zero zero d [] o h k = refl
feed_loop-fuel zero (suc g) d [] o h k = refl
feed_loop-fuel (suc f) zero d [] o h k = refl
feed_loop-fuel (suc f) (suc g) d [] o h k = refl
feed_loop-fuel zero g d (x ∷ xs) o h k = absurd (omega arith)
feed_loop-fuel (suc f) zero d (x ∷ xs) o h k = absurd (omega arith)
feed_loop-fuel (suc f) (suc g) d (x ∷ xs) o h k =
    settle_congr (x ∷ xs) (push d (x ∷ xs)) (feed_loop f) (feed_loop g) (omega arith)
      (push-Accounts d (x ∷ xs) o)
      (λ d' rest o' l. feed_loop-fuel f g d' rest o' (omega arith) (omega arith))

-- The loop by its calls, without a count of rounds.
pub feed_step :
    (d : Decoder) (x : ℕ) (xs : List ℕ)
    → IsOpen d
    → feed d (x ∷ xs) ≡ settle (x ∷ xs) (push d (x ∷ xs)) feed
unfolding feed
feed_step d x xs o =
    settle_congr (x ∷ xs) (push d (x ∷ xs)) (feed_loop (length xs)) feed (omega arith)
      (push-Accounts d (x ∷ xs) o)
      (λ d' rest o' l.
        feed_loop-fuel (length xs) (length rest) d' rest o' (omega arith) (omega arith))

pub feed_nonempty :
    (d : Decoder) (xs : List ℕ) → IsOpen d → 0 < length xs → feed d xs ≡ settle xs (push d xs) feed
feed_nonempty d [] o h = absurd (omega arith)
feed_nonempty d (x ∷ xs) o h = feed_step d x xs o

settle-advance :
    (xs ys : List ℕ) (r : Pushed) (next : Decoder → List ℕ → Fed)
    → settle (xs ++ ys) (advance (length xs) r) next ≡ settle ys r next
settle-advance xs ys (ok (n, none), d) next =
    ap (next d) (drop-append_past (length xs + n) n xs ys refl)
settle-advance xs ys (ok (n, some p), d) next =
    ap (λ l. emit p (next d l)) (drop-append_past (length xs + n) n xs ys refl)
settle-advance xs ys (err e, d) next = refl

and_feed-emit :
    (p : Packet) (f : Fed) (next : Decoder → Fed)
    → and_feed (emit p f) next ≡ emit p (and_feed f next)
and_feed-emit p f next = ground arith

and_feed-nil : (f : Fed) → and_feed f (λ d. feed d []) ≡ f
unfolding feed
and_feed-nil f = ground (arith, append-nil f.packets)

pub feed-nil : (d : Decoder) → feed d [] ≡ record { packets = []; ending = drained; decoder = d }
unfolding feed
feed-nil d = refl

-- One call and what follows it, on an input with more behind it; `more` is the claim for the inputs
-- that are left behind a packet.
settle-append :
    (xs : List ℕ) (y : ℕ) (ys : List ℕ) (r : Pushed)
    → 0 < length xs
    → Accounts (length xs) r
    → ((rest : List ℕ)
        → length rest < length xs
        → feed start (rest ++ y ∷ ys) ≡ and_feed (feed start rest) (λ d'. feed d' (y ∷ ys)))
    → settle (xs ++ y ∷ ys) (resume r (y ∷ ys)) feed
      ≡ and_feed (settle xs r feed) (λ d'. feed d' (y ∷ ys))
settle-append xs y ys (ok (n, none), d) h a more =
    rw (a.0, settle-advance xs (y ∷ ys) (push d (y ∷ ys)) feed, ← feed_step d y ys a.1)
      (rw (drop_all (length xs) xs (omega arith), feed-nil d))
settle-append xs y ys (ok (n, some p), d) h a more =
    rw (a.3, drop-append n xs (y ∷ ys) a.0)
      (ap (emit p) (more (drop n xs) (omega (arith, length-drop n xs, a.0, a.1 h)))
        ∙ sym (and_feed-emit p (feed start (drop n xs)) (λ d'. feed d' (y ∷ ys))))
settle-append xs y ys (err e, d) h a more = refl

feed-append_below :
    (fuel : ℕ) (d : Decoder) (xs ys : List ℕ)
    → IsOpen d
    → length xs ≤ fuel
    → feed d (xs ++ ys) ≡ and_feed (feed d xs) (λ d'. feed d' ys)
feed-append_below zero d [] ys o h = rw feed-nil
feed-append_below (suc fuel) d [] ys o h = rw feed-nil
feed-append_below fuel d (x ∷ xs) [] o h = rw append-nil (sym (and_feed-nil (feed d (x ∷ xs))))
feed-append_below zero d (x ∷ xs) (y ∷ ys) o h = absurd (omega arith)
feed-append_below (suc fuel) d (x ∷ xs) (y ∷ ys) o h =
    rw (feed_step d x (xs ++ y ∷ ys) o, feed_step d x xs o, push-append d (x ∷ xs) (y ∷ ys) o)
      (settle-append (x ∷ xs) y ys (push d (x ∷ xs)) (omega arith) (push-Accounts d (x ∷ xs) o)
        (λ rest l. feed-append_below fuel start rest (y ∷ ys) start-IsOpen (omega arith)))

-- From a state between two calls, feeding two chunks together gives the packets, the ending and the
-- decoder of feeding the first and then, if it was used up, the second.
pub feed-append :
    (d : Decoder) (xs ys : List ℕ)
    → IsOpen d
    → feed d (xs ++ ys) ≡ and_feed (feed d xs) (λ d'. feed d' ys)
feed-append d xs ys o = feed-append_below (length xs) d xs ys o (omega arith)

-- How a loop may end: on a decoder between two calls, or refused with the decoder closed.
abbrev pub Ended : Fed → Type 0
Ended f = elim f.ending [
  | drained ↦ IsOpen f.decoder
  | refused e ↦ (e ≡ invalid_data) × (f.decoder ≡ failed)
  | unfinished ↦ ⊥
]

settle-Ended :
    (xs : List ℕ) (r : Pushed)
    → 0 < length xs
    → Accounts (length xs) r
    → ((d : Decoder) (rest : List ℕ) → IsOpen d → length rest < length xs → Ended (feed d rest))
    → Ended (settle xs r feed)
settle-Ended xs (ok (n, none), d) h a more =
    more d (drop n xs) a.1 (omega (arith, length-drop n xs, a.0))
settle-Ended xs (ok (n, some p), d) h a more =
    more d (drop n xs) (rw a.3 start-IsOpen) (omega (arith, length-drop n xs, a.0, a.1 h))
settle-Ended xs (err e, d) h a more = a

feed-Ended_below :
    (fuel : ℕ) (d : Decoder) (xs : List ℕ) → IsOpen d → length xs ≤ fuel → Ended (feed d xs)
feed-Ended_below zero d [] o h = rw feed-nil o
feed-Ended_below (suc fuel) d [] o h = rw feed-nil o
feed-Ended_below zero d (x ∷ xs) o h = absurd (omega arith)
feed-Ended_below (suc fuel) d (x ∷ xs) o h = rw (feed_step d x xs o) (
    settle-Ended (x ∷ xs) (push d (x ∷ xs)) (omega arith) (push-Accounts d (x ∷ xs) o)
      (λ d' rest o' l. feed-Ended_below fuel d' rest o' (omega arith)))

-- The loop always ends: with the input used up and a decoder between two calls, or refused as invalid
-- data with the decoder closed.
pub feed-Ended : (d : Decoder) (xs : List ℕ) → IsOpen d → Ended (feed d xs)
feed-Ended d xs o = feed-Ended_below (length xs) d xs o (omega arith)

and_feed_congr :
    (f : Fed) (next next' : Decoder → Fed)
    → Ended f
    → ((d : Decoder) → IsOpen d → next d ≡ next' d)
    → and_feed f next ≡ and_feed f next'
and_feed_congr f next next' = go f.packets f.ending f.decoder
  where
    go :
        (ps : List Packet) (ending : Ending) (d : Decoder)
        → Ended (record { packets = ps; ending = ending; decoder = d })
        → ((d' : Decoder) → IsOpen d' → next d' ≡ next' d')
        → and_feed (record { packets = ps; ending = ending; decoder = d }) next
          ≡ and_feed (record { packets = ps; ending = ending; decoder = d }) next'
    go ps drained d h e = ap (λ (g : Fed). record g { packets = ps ++ g.packets }) (e d h)
    go ps (refused k) d h e = refl
    go ps unfinished d h e = refl

-- However a stream is cut into chunks, the packets, the ending and the decoder left are those of the
-- whole stream.
pub feed_chunks-concat :
    (d : Decoder) (chunks : List (List ℕ))
    → IsOpen d
    → feed_chunks d chunks ≡ feed d (concat chunks)
unfolding feed_chunks
feed_chunks-concat d [] o = rw feed-nil
feed_chunks-concat d (chunk ∷ chunks) o =
    and_feed_congr (feed d chunk) _ _ (feed-Ended d chunk o)
      (λ d' o'. feed_chunks-concat d' chunks o')
    ∙ sym (feed-append d chunk (concat chunks) o)
