-- ===== src/Lang/Shuffler/Rounds.antt =====
-- That every string comes up once in a round.
use mathlib.Core.List.{Perm, append_assoc, append-nil, perm_append_comm}
use mathlib.Core.List.Perm
use native.Mathlib.Nat.{mod-eq_of_lt, mod-add-mod, mod_self, mod-lt}
use tillerinobot.Prelude.{
  ◌≡◌, refl, ap, subst, sym, ◌∙◌, ℕ, zero, suc, ◌+◌, ◌%◌, ◌^◌, ◌≤◌, ◌<◌, Option, some, List, [],
  ◌∷◌, ◌++◌, length, length-append, get_elem?, arith,
}
use tillerinobot.Lang.Shuffler.{StringShuffler, position, get, get_times, join}

position_lem : (i n r : ℕ) → i < 2 ^ 31 → 0 < n → i % n ≡ r → position i n ≡ some r
position_lem i n r h p e = ground (arith, e)

index_lem : (i : ℕ) → i < 2 ^ 31 → (i + 1) % 2 ^ 32 ≡ i + 1
index_lem i h = omega arith

suc-mod' : (i n r : ℕ) → i % n ≡ r → r + 1 < n → (i + 1) % n ≡ r + 1
suc-mod' i n r e l = sym (mod-add-mod i n 1) ∙ ap (λ x. (x + 1) % n) e ∙ mod-eq_of_lt l

module _ {ℓ} {A : Type ℓ} (shuffle : ℕ → List A → List A) where
  get_elem-append :
      (before : List A) (x : A) (rest : List A)
      → get_elem? (before ++ (x ∷ rest)) (length before) ≡ some x
  get_elem-append [] x rest = refl
  get_elem-append (y ∷ before) x rest = get_elem-append before x rest

  get_run :
      (before rest : List A) (x : A) (strings : List A) (s : StringShuffler)
      → shuffle s.seed strings ≡ before ++ (x ∷ rest)
      → s.index % length (shuffle s.seed strings) ≡ length before
      → s.index < 2 ^ 31
      → get shuffle strings s ≡ (some x, record s { index = s.index + 1 })
  unfolding get
  get_run before rest x strings s e h b =
      let n : 0 < length (shuffle s.seed strings) =
        rw e (rw (length-append before (x ∷ rest)) (omega arith)) in
      rw
        (
          position_lem s.index (length (shuffle s.seed strings)) (length before) b n h,
          index_lem s.index b,
        )
        (ap (λ o. (o, record s { index = s.index + 1 }))
          (ap (λ xs. get_elem? xs (length before)) e ∙ get_elem-append before x rest))

  next_position :
      (before mid rest : List A) (x : A) (i : ℕ)
      → i % length (before ++ (x ∷ (mid ++ rest))) ≡ length before
      → 0 < length mid
      → (i + 1) % length (before ++ (x ∷ (mid ++ rest))) ≡ length (before ++ (x ∷ []))
  next_position before mid rest x i h m =
      let n = length-append before (x ∷ (mid ++ rest)) in
      let k = length-append mid rest in
      let l = length-append before (x ∷ []) in
      suc-mod' i (length (before ++ (x ∷ (mid ++ rest)))) (length before) h (omega (arith, n, k, m))
      ∙ omega (arith, l)

  abbrev prepend : List A → Option (List A) → Option (List A)
  prepend [] o = o
  prepend (x ∷ xs) o = join (some x) (prepend xs o)

  -- A run of calls reads on from where the index points to; `m` more calls follow.
  get_times_run :
      (before mid rest : List A) (strings : List A) (s : StringShuffler) (m : ℕ)
      → shuffle s.seed strings ≡ before ++ (mid ++ rest)
      → (0 < length mid → s.index % length (shuffle s.seed strings) ≡ length before)
      → s.index + length mid ≤ 2 ^ 31
      → let r = get_times shuffle m strings (record s { index = s.index + length mid }) in
        get_times shuffle (length mid + m) strings s ≡ (prepend mid r.0, r.1)
  unfolding get_times
  get_times_run before [] rest strings s m e h b =
      let i : s.index ≡ s.index + 0 = omega arith in
      let z : 0 + m ≡ m = omega arith in rw (z, ← i) refl
  get_times_run before (x ∷ mid) rest strings s m e h b =
      let r = get_run before (mid ++ rest) x strings s e (h (omega arith)) (omega (arith, b)) in
      let q =
        get_times_run (before ++ (x ∷ [])) mid rest strings (record s { index = s.index + 1 }) m
          (e ∙ sym (append_assoc before (x ∷ []) (mid ++ rest)))
          (λ m.
            subst (λ xs. (s.index + 1) % length xs ≡ length (before ++ (x ∷ []))) (sym e)
              (next_position before mid rest x s.index
                (subst (λ xs. s.index % length xs ≡ length before) e (h (omega arith))) m))
          (omega (arith, b)) in
      let i : s.index + suc (length mid) ≡ s.index + 1 + length mid = omega arith in
      let z : suc (length mid) + m ≡ suc (length mid + m) = omega arith in rw (z, i, r, q) refl

  -- `Collections.shuffle` permutes a list.
  pub record Shuffles : Type ℓ where
    pub permutes : (seed : ℕ) (xs : List A) → Perm (shuffle seed xs) xs
    pub keeps_length : (seed : ℕ) (xs : List A) → length (shuffle seed xs) ≡ length xs

  split_at :
      (r : ℕ) (xs : List A)
      → r ≤ length xs
      → (before : List A) × (after : List A) × (xs ≡ before ++ after) × (length before ≡ r)
  split_at zero xs h = ([], xs, refl, refl)
  split_at (suc r) [] h = absurd (ground arith)
  split_at (suc r) (x ∷ xs) h =
      let s = split_at r xs (omega arith) in (x ∷ s.0, s.1, ap (λ ys. x ∷ ys) s.2, ap suc s.3)

  append_prepend : (xs ys : List A) → prepend xs (prepend ys (some [])) ≡ some (xs ++ ys)
  append_prepend [] [] = refl
  append_prepend [] (y ∷ ys) = rw (append_prepend [] ys) refl
  append_prepend (x ∷ xs) ys = rw (append_prepend xs ys) refl

  wrapped : (i n r k : ℕ) → i % n ≡ r → n ≡ r + k → (i + k) % n ≡ 0
  wrapped i n r k e f =
      sym (mod-add-mod i n k) ∙ ap (λ x. (x + k) % n) e ∙ ap (λ x. x % n) (sym f) ∙ mod_self n

  -- The two runs: to the end of the shuffled strings, and from their start.
  get_times_round :
      (before after : List A) (strings : List A) (s : StringShuffler)
      → shuffle s.seed strings ≡ before ++ after
      → s.index % length (shuffle s.seed strings) ≡ length before
      → s.index + length (shuffle s.seed strings) ≤ 2 ^ 31
      → (get_times shuffle (length after + (length before + 0)) strings s).0
        ≡ some (after ++ before)
  unfolding get_times
  get_times_round before after strings s e h b =
      let n = ap length e ∙ length-append before after in
      let first =
        get_times_run before after [] strings s (length before + 0)
          (e ∙ ap (λ xs. before ++ xs) (sym (append-nil after))) (λ m. h) (omega (arith, n, b)) in
      let second =
        get_times_run [] before after strings (record s { index = s.index + length after }) 0 e
          (λ m.
            wrapped s.index (length (shuffle s.seed strings)) (length before) (length after) h n)
          (omega (arith, n, b)) in
      rw (first, second) (append_prepend after before)

  -- As many calls as there are strings return every string exactly once, if the strings are the
  -- same in all of them and the index does not get negative.
  pub get_times-Perm :
      (strings : List A) (s : StringShuffler)
      → Shuffles
      → 0 < length strings
      → s.index + length strings ≤ 2 ^ 31
      → (order : List A) × ((get_times shuffle (length strings) strings s).0 ≡ some order)
        × Perm order strings
  get_times-Perm strings s p n b =
      let xs = shuffle s.seed strings in
      let l = p.keeps_length s.seed strings in
      let c =
        split_at (s.index % length xs) xs
          (omega (arith, mod-lt s.index {m = length xs} (omega (arith, n, l)))) in
      let r = get_times_round c.0 c.1 strings s c.2 (sym c.3) (omega (arith, l, b)) in
      let k : length strings ≡ length c.1 + (length c.0 + 0) =
        omega (arith, l, ap length c.2, length-append c.0 c.1) in
      (
        c.1 ++ c.0,
        subst (λ m. (get_times shuffle m strings s).0 ≡ some (c.1 ++ c.0)) (sym k) r,
        Perm.trans (perm_append_comm c.1 c.0)
            (subst (λ ys. Perm ys strings) c.2 (p.permutes s.seed strings)),
      )
