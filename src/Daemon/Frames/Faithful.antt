-- ===== src/Daemon/Frames/Faithful.antt =====
-- After a plan is adopted, the baseline is what the terminal engine shows.
use worminal.Prelude.{
  ℕ, zero, suc, ◌+◌, ◌*◌, ◌-◌, ◌<◌, ◌≡◌, refl, ap, ◌∙◌, subst, Bool, true, false, ◌&&◌, ◌||◌,
  Option, none, some, List, [], ◌∷◌, ltb, leb, if◌then◌else◌, arith, if_both, length, take,
  replicate, get_or, length-append, length-take, length-replicate,
}
use worminal.Prelude.Grid.{row_at}
use worminal.Daemon.Frames.Move.{Move, unwrap}
use worminal.Daemon.Frames.Prepare.{Request, baseline_row, updates_from}
use worminal.Daemon.Frames.Commit.{resize, copy_within, copy_updates}
use worminal.Daemon.Frames.Search.{FitsIn, IfAny, IsSound}
use worminal.Daemon.Frames.Baseline.{copy_within-length, row_at-copy_within}
use worminal.Daemon.Frames.Updates.{AreFetched, target, HasMoved, Brings, updates_from-Brings}

module _ (width : ℕ) (screen : ℕ → List ℕ) where
  pub weaken-AreFetched :
      (full every : Bool) (row : ℕ) (flags : List Bool) (current : List (Option (List ℕ)))
      → (full ≡ true → every ≡ true)
      → AreFetched width screen every row flags current
      → AreFetched width screen full row flags current
  weaken-AreFetched full every row [] [] h f = tt
  weaken-AreFetched full every row [] (o ∷ current) h f = f
  weaken-AreFetched full every row (flag ∷ flags) [] h f = f
  weaken-AreFetched full every row (flag ∷ flags) (o ∷ current) h f =
      (λ wanted. f.0 (ground arith), weaken-AreFetched full every (suc row) flags current h f.1)

  AreFetched-length :
      (every : Bool) (row : ℕ) (flags : List Bool) (current : List (Option (List ℕ)))
      → AreFetched width screen every row flags current
      → length current ≡ length flags
  AreFetched-length every row [] [] f = refl
  AreFetched-length every row [] (o ∷ current) f = absurd f
  AreFetched-length every row (flag ∷ flags) [] f = absurd f
  AreFetched-length every row (flag ∷ flags) (o ∷ current) f =
      ap suc (AreFetched-length every (suc row) flags current f.1)

  AreFetched-get :
      (row : ℕ) (flags : List Bool) (current : List (Option (List ℕ))) (k : ℕ)
      → AreFetched width screen true row flags current
      → k < length flags
      → unwrap (get_or current k none) ≡ screen (row + k)
  AreFetched-get row [] current k f l = absurd (omega arith)
  AreFetched-get row (flag ∷ flags) [] k f l = absurd f
  AreFetched-get row (flag ∷ flags) (o ∷ current) zero f l = (f.0 refl).0 ∙ ap screen (omega arith)
  AreFetched-get row (flag ∷ flags) (o ∷ current) (suc k) f l =
      AreFetched-get (suc row) flags current k f.1 (omega arith) ∙ ap screen (omega arith)

  -- A row that is not flagged is the screen's after the move.
  unflagged_row :
      (every : Bool) (flags : List Bool) (current : List (Option (List ℕ))) (baseline : List ℕ)
      (o : Option Move) (k : ℕ)
      → AreFetched width screen every 0 flags current
      → IfAny (IsSound width baseline current) o
      → IfAny (λ _. every ≡ true) o
      → k < length flags
      → row_at width baseline k ≡ screen k
      → row_at width baseline (baseline_row o k) ≡ screen k
  unfolding baseline_row
  unflagged_row every flags current baseline none k f s e l clean = clean
  unflagged_row every flags current baseline (some m) k f s e l clean =
      if_both (λ (i : ℕ). row_at width baseline i ≡ screen k)
        (leb m.destination k && ltb k (m.destination + m.count)) _ _
        (λ inside.
          ap (row_at width baseline) (omega_source inside)
          ∙ s.1 (k - m.destination) (ground arith)
          ∙ ap (λ i. unwrap (get_or current i none)) (ground arith)
          ∙ AreFetched-get 0 flags current k
              (subst (λ b. AreFetched width screen b 0 flags current) e f) l
          ∙ ap screen (omega arith))
        (λ _. clean)
    where
      omega_source :
          leb m.destination k && ltb k (m.destination + m.count) ≡ true
          → m.source + k - m.destination ≡ m.source + (k - m.destination)
      omega_source inside = ground arith

pub length-resize : (size : ℕ) (bytes : List ℕ) → length (resize size bytes) ≡ size
unfolding resize
length-resize size bytes = omega (
  arith,
  length-append (take size bytes) (replicate (size - length bytes) 0),
  length-take size bytes,
  length-replicate {A = ℕ} (size - length bytes) 0,
)

-- Bytes that are a screen's rows.
pub record AreRows (width rows : ℕ) (screen : ℕ → List ℕ) (bytes : List ℕ) : Type 0 where
  pub size : length bytes ≡ width * rows
  pub each : (row : ℕ) → row < rows → row_at width bytes row ≡ screen row

-- What is known of a request's rows.
pub record IsAsked (q : Request) (rows : ℕ) (screen : ℕ → List ℕ) (every : Bool) (flags : List Bool)
    (current : List (Option (List ℕ))) : Type 0 where
  pub flagged : length flags ≡ rows
  pub fetched : AreFetched q.width screen every 0 flags current
  pub full_every : q.full ≡ true → every ≡ true
  pub full_unmoved : q.full ≡ true → q.movement ≡ none
  pub moved : IfAny (IsSound q.width q.baseline current) q.movement
  pub moved_every : IfAny (λ _. every ≡ true) q.movement
  pub baseline_size : q.full ≡ false → length q.baseline ≡ q.width * rows
  pub clean :
      q.full ≡ false
      → (row : ℕ) → row < rows
      → get_or flags row false ≡ false
      → row_at q.width q.baseline row ≡ screen row

-- The baseline that the updates start from.
abbrev pub resized : Request → ℕ → List ℕ
resized q rows = if q.full then resize (q.width * rows) q.baseline else q.baseline

module _ {q : Request} {rows : ℕ} {screen : ℕ → List ℕ} {every : Bool} {flags : List Bool}
    {current : List (Option (List ℕ))} (a : IsAsked q rows screen every flags current)
    (base : List ℕ) (base_size : length base ≡ q.width * rows)
    (base_partial : q.full ≡ false → base ≡ q.baseline) where
  pub fitting :
      (o : Option Move) → IfAny (IsSound q.width q.baseline current) o → IfAny (FitsIn rows) o
  fitting none h = tt
  fitting (some m) h =
      subst (λ n. FitsIn n m)
        (AreFetched-length q.width screen every 0 flags current a.fetched ∙ a.flagged) h.0

  abbrev pub moved_bytes : List ℕ
  moved_bytes = copy_within q.width q.movement base

  pub moved_rows : (row : ℕ) → HasMoved q moved_bytes row
  moved_rows row partial =
      row_at-copy_within q.width rows q.movement base row (fitting q.movement a.moved) base_size
      ∙ ap (λ bs. row_at q.width bs (baseline_row q.movement row)) (base_partial partial)

  brought :
      Brings q screen 0 flags moved_bytes
        (copy_updates q.width (updates_from q 0 flags current) moved_bytes)
  brought =
      updates_from-Brings q screen rows 0 flags current _
        (copy_within-length q.width rows q.movement base (fitting q.movement a.moved) base_size)
        (omega (arith, a.flagged))
        (weaken-AreFetched q.width screen q.full every 0 flags current a.full_every a.fetched)
        (λ row _. moved_rows row)

  target_row :
      (row : ℕ)
      → row < rows
      → target (q.full || get_or flags row false) (screen row) (row_at q.width moved_bytes row)
        ≡ screen row
  target_row row l =
      if_both (λ (bs : List ℕ). bs ≡ screen row) (q.full || get_or flags row false) _ _ (λ _. refl)
        (λ left.
          moved_rows row (ground arith)
          ∙ unflagged_row q.width screen every flags current q.baseline q.movement row a.fetched
              a.moved a.moved_every (omega (arith, a.flagged))
              (a.clean (ground arith) row l (ground arith)))

  updated_row :
      (row : ℕ)
      → row < length flags
      → row_at q.width (copy_updates q.width (updates_from q 0 flags current) moved_bytes) row
        ≡ target (q.full || get_or flags row false) (screen row) (row_at q.width moved_bytes row)
  updated_row row l =
      subst
        (λ n.
          row_at q.width (copy_updates q.width (updates_from q 0 flags current) moved_bytes) n
          ≡ target (q.full || get_or flags row false) (screen n) (row_at q.width moved_bytes n))
        {x = 0 + row} {y = row} (omega arith) (brought.brought row l)

  pub based-AreRows :
      AreRows q.width rows screen (
        copy_updates q.width (updates_from q 0 flags current) (copy_within q.width q.movement base))
  based-AreRows = record {
    size =
        brought.same_length
        ∙ copy_within-length q.width rows q.movement base (fitting q.movement a.moved) base_size;
    each = λ row l. updated_row row (omega (arith, a.flagged)) ∙ target_row row l;
  }

pub updated-AreRows :
    {q : Request} {rows : ℕ} {screen : ℕ → List ℕ} {every : Bool} {flags : List Bool}
    {current : List (Option (List ℕ))}
    → IsAsked q rows screen every flags current
    → AreRows q.width rows screen (
        copy_updates q.width
          (updates_from q 0 flags current)
          (copy_within q.width q.movement (resized q rows)))
updated-AreRows {q} {rows} a =
    based-AreRows a (resized q rows)
      (if_both (λ (bs : List ℕ). length bs ≡ q.width * rows) q.full _ _
        (λ _. length-resize (q.width * rows) q.baseline) a.baseline_size)
      (λ partial. rw partial refl)
