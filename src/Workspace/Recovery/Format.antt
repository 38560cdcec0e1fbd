-- ===== src/Workspace/Recovery/Format.antt =====
-- Which recipes the file format lets through.
use worminal.Prelude.{
  ℕ, zero, suc, ◌≤◌, ◌<◌, ◌≡◌, refl, true, false, List, [], ◌∷◌, ltb, ◌==◌, length, All, arith,
  Bool-cases, inl, inr, ap, subst, ltb_false→le,
}
use worminal.Prelude.Result.{ok, pure, >>=-eq-ok}
use worminal.Protocol.Payload
use worminal.Protocol.Payload.{Payload}
use worminal.Workspace.Recovery.{
  Recipe, restore_limit, restore_tabs, restore_url_limit, restore_version, starts_with_slash,
  contains_nul, is_empty, for_tab, valid, read_recipes, read_file, decode,
}

-- Where a tab is opened: its directory, or the home in place of an empty one.
abbrev pub place : List ℕ → List ℕ → List ℕ
place [] home = home
place (b ∷ directory) home = b ∷ directory

module _ (directory_limit : ℕ) where
  -- The recipe of a tab is let through whenever its directory, or the home in place of an empty one, is
  -- shorter than the limit and its URL within its own, neither has a NUL byte, and the limit leaves room
  -- for the root directory.
  pub for_tab-valid :
      (directory url home : List ℕ)
      → 1 < directory_limit
      → length (place directory home) < directory_limit
      → length url ≤ restore_url_limit
      → contains_nul (place directory home) ≡ false
      → contains_nul url ≡ false
      → valid directory_limit (for_tab directory url home) ≡ true
  unfolding valid for_tab contains_nul is_empty starts_with_slash
  for_tab-valid [] url [] one d u nd nu = ground arith
  for_tab-valid [] url (b ∷ home) one d u nd nu = ground arith
  for_tab-valid (b ∷ directory) url home one d u nd nu = ground arith

  abbrev AllValid : ℕ → List Recipe → Type 0
  AllValid n rs = (length rs ≡ n) × All (λ r. valid directory_limit r ≡ true) rs

  read_recipes-valid :
      (n : ℕ) (bytes : List ℕ) {rs : List Recipe} {rest : List ℕ}
      → read_recipes directory_limit n bytes ≡ (ok rs, rest)
      → AllValid n rs
  unfolding read_recipes
  read_recipes-valid zero bytes {rs} e =
      let same : [] ≡ rs = ground arith in subst (AllValid 0) same (refl, tt)
  read_recipes-valid (suc n) bytes {rs} {rest} e =
      let (directory, b1, e1, k1) = >>=-eq-ok Payload.string _ bytes e in
      let (url, b2, e2, k2) = >>=-eq-ok Payload.string _ b1 k1 in
      let recipe : Recipe = record { directory = directory; url = url } in
      elim (Bool-cases (valid directory_limit recipe)) [
        | inl fine ↦
            let (recipes, b3, e3, k3) =
              >>=-eq-ok (read_recipes directory_limit n) (λ l. pure (recipe ∷ l)) b2
                (rw fine at k2) in
            let same : recipe ∷ recipes ≡ rs = ground arith in
            let (l, all) = read_recipes-valid n b2 e3 in
            subst (AllValid (suc n)) same (ap suc l, (fine, all))
        | inr bad ↦ absurd (ground arith)
      ]

  read_file-valid :
      (bytes : List ℕ) {rs : List Recipe} {rest : List ℕ}
      → read_file directory_limit bytes ≡ (ok rs, rest)
      → (n : ℕ) × (n ≤ restore_tabs) × AllValid n rs
  unfolding read_file
  read_file-valid bytes {rs} {rest} e =
      let (version, b1, e1, k1) = >>=-eq-ok Payload.u32 _ bytes e in
      elim (Bool-cases (version == restore_version)) [
        | inl current ↦
            let (count, b2, e2, k2) = >>=-eq-ok Payload.u32 _ b1 (rw current at k1) in
            elim (Bool-cases (ltb restore_tabs count)) [
              | inl many ↦ absurd (ground arith)
              | inr few ↦
                  let (recipes, b3, e3, k3) =
                    >>=-eq-ok (read_recipes directory_limit count) _ b2 (rw few at k2) in
                  let (u, b4, e4, k4) = >>=-eq-ok Payload.finish (λ _. pure recipes) b3 k3 in
                  let same : recipes ≡ rs = ground arith in
                  (
                    count,
                    ltb_false→le _ _ few,
                    subst (AllValid count) same (read_recipes-valid count b2 e3),
                  )
            ]
        | inr other ↦ absurd (ground arith)
      ]

  -- What `decode` returns is at most 4096 recipes, each of which the encoder would let through.
  pub decode-valid :
      (bytes : List ℕ) {rs : List Recipe}
      → decode directory_limit bytes ≡ ok rs
      → (length rs ≤ restore_tabs) × All (λ r. valid directory_limit r ≡ true) rs
  unfolding decode
  decode-valid bytes {rs} e = elim (Bool-cases (ltb restore_limit (length bytes))) [
    | inl large ↦ absurd (ground arith)
    | inr small ↦
        let out : (read_file directory_limit bytes).0 ≡ ok rs = rw small at e in
        let (n, few, good) =
          read_file-valid bytes (ap (λ r. (r, (read_file directory_limit bytes).1)) out) in
        (omega (arith, good.0), good.1)
  ]
