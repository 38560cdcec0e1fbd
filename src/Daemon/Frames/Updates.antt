-- ===== src/Daemon/Frames/Updates.antt =====
-- The updates that `prepare` chooses make the baseline the screen.
use worminal.Prelude.{
  ℕ, zero, suc, ◌+◌, ◌*◌, ◌≤◌, ◌<◌, ◌≡◌, refl, sym, ap, ◌∙◌, subst, inl, inr, Bool, true, false,
  ◌&&◌, ◌||◌, not, Option, List, [], ◌∷◌, if◌then◌else◌, arith, if_both, length, get_or,
}
use worminal.Prelude.Bytes.{bytes_eq, bytes_eq-eq}
use worminal.Prelude.Grid.{row_at}
use worminal.Daemon.Frames.Move.{unwrap}
use worminal.Daemon.Frames.Prepare.{Update, Request, baseline_row, update_row, updates_from}
use worminal.Daemon.Frames.Commit.{copy_updates}
use worminal.Daemon.Frames.Baseline.{copy_updates-append, Writes, splice-Writes}

keeps-Writes : (w row : ℕ) (new bs : List ℕ) → row_at w bs row ≡ new → Writes w row new bs bs
keeps-Writes w row new bs e = record { same_length = refl; written = e; others = λ j side. refl }

-- What the baseline has of a row before the updates, unless all rows are sent.
abbrev pub HasMoved : Request → List ℕ → ℕ → Type 0
HasMoved q bs row =
    q.full ≡ false → row_at q.width bs row ≡ row_at q.width q.baseline (baseline_row q.movement row)

update_row-Writes :
    (q : Request) (r row : ℕ) (new bs : List ℕ)
    → length bs ≡ q.width * r
    → row < r
    → length new ≡ q.width
    → HasMoved q bs row
    → Writes q.width row new bs (copy_updates q.width (update_row q row new) bs)
unfolding update_row copy_updates
update_row-Writes q r row new bs e i l h =
    let old = row_at q.width q.baseline (baseline_row q.movement row) in
    if_both (λ (us : List Update). Writes q.width row new bs (copy_updates q.width us bs))
      (not q.full && bytes_eq new old) _ _
      (λ same.
        keeps-Writes q.width row new bs
          (h (ground arith) ∙ sym (bytes_eq-eq new old (ground arith))))
      (λ _. splice-Writes q.width r row new bs e l i)

-- What a row becomes: the screen's where the row is asked for, else it stays.
abbrev pub target : Bool → List ℕ → List ℕ → List ℕ
target wanted new old = if wanted then new else old

unfoldable pub chosen : Request → Bool → ℕ → Option (List ℕ) → List Update
chosen q flag row o = if not q.full && not flag then [] else update_row q row (unwrap o)

-- The bytes of a row that is wanted are the screen's.
abbrev pub IsFetched : ℕ → List ℕ → Option (List ℕ) → Bool → Type 0
IsFetched width new o wanted = wanted ≡ true → (unwrap o ≡ new) × (length new ≡ width)

by_choice :
    (P : List Update → List ℕ → Type 0) (full flag : Bool) (us : List Update) (new old : List ℕ)
    → (full || flag ≡ true → P us new)
    → (full || flag ≡ false → P [] old)
    → P (if not full && not flag then [] else us) (target (full || flag) new old)
by_choice P true flag us new old h k = h refl
by_choice P false true us new old h k = h refl
by_choice P false false us new old h k = k refl

pub chosen-Writes :
    (q : Request) (r row : ℕ) (flag : Bool) (o : Option (List ℕ)) (new bs : List ℕ)
    → length bs ≡ q.width * r
    → row < r
    → IsFetched q.width new o (q.full || flag)
    → HasMoved q bs row
    → Writes q.width row
        (target (q.full || flag) new (row_at q.width bs row))
        bs
        (copy_updates q.width (chosen q flag row o) bs)
unfolding chosen copy_updates
chosen-Writes q r row flag o new bs e i f h =
    by_choice (λ us t. Writes q.width row t bs (copy_updates q.width us bs)) q.full flag
      (update_row q row (unwrap o)) new _
      (λ wanted. rw ((f wanted).0) (update_row-Writes q r row new bs e i ((f wanted).1) h))
      (λ _. keeps-Writes q.width row _ bs refl)

-- Every row that is wanted is read, from a row on.
abbrev pub AreFetched : ℕ → (ℕ → List ℕ) → Bool → ℕ → List Bool → List (Option (List ℕ)) → Type 0
AreFetched width screen full row [] [] = Unit
AreFetched width screen full row (flag ∷ flags) (o ∷ current) =
    IsFetched width (screen row) o (full || flag)
    × AreFetched width screen full (suc row) flags current
AreFetched width screen full row _ _ = ⊥

-- The rows from `row` on are the screen's where they are wanted, and the others stay.
pub record Brings (q : Request) (screen : ℕ → List ℕ) (row : ℕ) (flags : List Bool)
    (bs bs' : List ℕ) : Type 0 where
  pub same_length : length bs' ≡ length bs
  pub before : (j : ℕ) → j < row → row_at q.width bs' j ≡ row_at q.width bs j
  pub brought :
      (k : ℕ)
      → k < length flags
      → row_at q.width bs' (row + k)
        ≡ target (q.full || get_or flags k false) (screen (row + k)) (row_at q.width bs (row + k))

pub updates_from-Brings :
    (q : Request) (screen : ℕ → List ℕ) (r row : ℕ) (flags : List Bool)
    (current : List (Option (List ℕ))) (bs : List ℕ)
    → length bs ≡ q.width * r
    → row + length flags ≤ r
    → AreFetched q.width screen q.full row flags current
    → ((j : ℕ) → row ≤ j → HasMoved q bs j)
    → Brings q screen row flags bs (copy_updates q.width (updates_from q row flags current) bs)
unfolding updates_from copy_updates chosen
updates_from-Brings q screen r row [] [] bs e i f h = record {
  same_length = refl;
  before = λ j low. refl;
  brought = λ k low. absurd (omega arith);
}
updates_from-Brings q screen r row [] (o ∷ current) bs e i f h = absurd f
updates_from-Brings q screen r row (flag ∷ flags) [] bs e i f h = absurd f
updates_from-Brings q screen r row (flag ∷ flags) (o ∷ current) bs e i f h =
    subst (Brings q screen row (flag ∷ flags) bs)
      (sym (
        copy_updates-append q.width (chosen q flag row o) (updates_from q (suc row) flags current)
          bs))
      (joined (
        updates_from-Brings q screen r (suc row) flags current bs1 (first.same_length ∙ e)
          (omega arith) f.1 λ j low full. first.others j (inr low) ∙ h j (omega arith) full))
  where
    bs1 : List ℕ
    bs1 = copy_updates q.width (chosen q flag row o) bs

    first : Writes q.width row (target (q.full || flag) (screen row) (row_at q.width bs row)) bs bs1
    first = chosen-Writes q r row flag o (screen row) bs e (omega arith) f.0 (h row (omega arith))

    wanted : ℕ → Bool
    wanted k = q.full || get_or (flag ∷ flags) k false

    IsBrought : List ℕ → ℕ → ℕ → Type 0
    IsBrought bs' k j = row_at q.width bs' j ≡ target (wanted k) (screen j) (row_at q.width bs j)

    all_brought :
        (bs' : List ℕ)
        → Brings q screen (suc row) flags bs1 bs'
        → (k : ℕ) → k < length (flag ∷ flags)
        → IsBrought bs' k (row + k)
    all_brought bs' b zero l =
        subst (IsBrought bs' 0) {x = row} {y = row + 0} (omega arith)
          (b.before row (omega arith) ∙ first.written)
    all_brought bs' b (suc k) l =
        subst (IsBrought bs' (suc k)) {x = suc row + k} {y = row + suc k} (omega arith) (
          b.brought k (omega arith)
          ∙ ap (target (wanted (suc k)) (screen (suc row + k)))
              (first.others (suc row + k) (inr (omega arith))))

    joined :
        {bs' : List ℕ}
        → Brings q screen (suc row) flags bs1 bs'
        → Brings q screen row (flag ∷ flags) bs bs'
    joined {bs'} b = record {
      same_length = b.same_length ∙ first.same_length;
      before = λ j low. b.before j (omega arith) ∙ first.others j (inl low);
      brought = all_brought bs' b;
    }
