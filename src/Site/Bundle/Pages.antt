-- ===== src/Site/Bundle/Pages.antt =====
-- The pages of a selection.
use tillerinobot.Prelude.{
  ◌≡◌, refl, sym, ap, ◌∙◌, ℕ, zero, suc, ◌+◌, ◌*◌, ◌≤◌, ◌<◌, List, [], ◌∷◌, ◌++◌, map, take, length,
  length-append, arith, leb, ltb, true, false, Bool-cases, inl, inr,
}
use mathlib.Core.List.{append_assoc, append-nil}
use tillerinobot.Site.Bundle.{min, added, collect, make_bundle, loaded, scroll}

abbrev pub drop {ℓ} : {A : Type ℓ} → ℕ → List A → List A
drop zero xs = xs
drop (suc n) [] = []
drop (suc n) (x ∷ xs) = drop n xs

module _ {ℓ κ} {BeatmapData : Type ℓ} {Beatmap : Type κ}
    (make_beatmap : BeatmapData → Beatmap) where
  added_on :
      (size start x : ℕ) (d : BeatmapData) (beatmaps : List Beatmap)
      → start ≤ x
      → added make_beatmap size start x d beatmaps ≡ beatmaps ++ (make_beatmap d ∷ [])
  added_on size start x d beatmaps s = rw (reached size start x s) refl
    where
      reached : (a b c : ℕ) → b ≤ c → leb (min make_beatmap a b) c ≡ true
      reached a b c h = ground arith

  length-added :
      (d : BeatmapData) (beatmaps : List Beatmap)
      → length (beatmaps ++ (make_beatmap d ∷ [])) ≡ length beatmaps + 1
  length-added d beatmaps = length-append beatmaps (make_beatmap d ∷ [])

  full : (n : ℕ) (beatmaps : List Beatmap) → n ≡ length beatmaps → leb n (length beatmaps) ≡ true
  full n beatmaps e = ground (arith, e)

  not_full :
      (n k : ℕ) (beatmaps : List Beatmap)
      → n ≡ length beatmaps + suc k
      → leb n (length beatmaps) ≡ false
  not_full n k beatmaps e = ground (arith, e)

  -- From the start on, `k` more beatmaps and one are taken.
  collect_page :
      (size start len k : ℕ) (selection : List BeatmapData) (x : ℕ) (beatmaps : List Beatmap)
      → start ≤ x
      → len ≡ length beatmaps + suc k
      → collect make_beatmap size start len selection x beatmaps
        ≡ beatmaps ++ map make_beatmap (take (suc k) selection)
  unfolding collect
  collect_page size start len k [] x beatmaps s e = sym (append-nil beatmaps)
  collect_page size start len zero (d ∷ selection) x beatmaps s e =
      let more = beatmaps ++ (make_beatmap d ∷ []) in
      rw
        (
          added_on size start x d beatmaps s,
          full len more (omega (arith, e, length-added d beatmaps)),
        )
        refl
  collect_page size start len (suc k) (d ∷ selection) x beatmaps s e =
      let more = beatmaps ++ (make_beatmap d ∷ []) in
      let n : len ≡ length more + suc k = omega (arith, e, length-added d beatmaps) in
      rw (added_on size start x d beatmaps s, not_full len k more n)
        (collect_page size start len k selection (x + 1) more (omega arith) n
          ∙ append_assoc beatmaps (make_beatmap d ∷ []) (map make_beatmap (take (suc k) selection)))

  not_reached :
      (size start x : ℕ) → x < start → x < size → leb (min make_beatmap size start) x ≡ false
  not_reached size start x h l = ground arith

  not_full_at_first : (k : ℕ) → leb (suc k) 0 ≡ false
  not_full_at_first k = ground arith

  -- The beatmaps before the start are passed over.
  collect_skip :
      (size start k m : ℕ) (selection : List BeatmapData) (x : ℕ)
      → x + m ≡ start
      → x + length selection ≡ size
      → collect make_beatmap size start (suc k) selection x []
        ≡ map make_beatmap (take (suc k) (drop m selection))
  unfolding collect
  collect_skip size start k zero selection x e f =
      collect_page size start (suc k) k selection x [] (omega (arith, e)) (omega arith)
  collect_skip size start k (suc m) [] x e f = refl
  collect_skip size start k (suc m) (d ∷ selection) x e f =
      rw (not_reached size start x (omega (arith, e)) (omega (arith, f)), not_full_at_first k)
        (collect_skip size start k m selection (x + 1) (omega (arith, e)) (omega (arith, f)))

  -- A page of at least one beatmap.
  page :
      (start k : ℕ) (selection : List BeatmapData)
      → (make_bundle make_beatmap start (suc k) selection).beatmaps
        ≡ map make_beatmap (take (suc k) (drop start selection))
  unfolding make_bundle
  page start k selection =
      collect_skip (length selection) start k start selection 0 (omega arith) (omega arith)

  take-drop :
      (a : ℕ) (xs : List BeatmapData)
      → map make_beatmap (take a xs) ++ map make_beatmap (drop a xs) ≡ map make_beatmap xs
  take-drop zero xs = refl
  take-drop (suc a) [] = refl
  take-drop (suc a) (x ∷ xs) = ap (λ ys. make_beatmap x ∷ ys) (take-drop a xs)

  drop-drop : (a b : ℕ) (xs : List BeatmapData) → drop b (drop a xs) ≡ drop (a + b) xs
  drop-drop zero b xs = let z : 0 + b ≡ b = omega arith in rw z refl
  drop-drop (suc a) b [] = let z : suc a + b ≡ suc (a + b) = omega arith in rw (z, drop_nil b) refl
    where
      drop_nil : (n : ℕ) → drop {A = BeatmapData} n [] ≡ []
      drop_nil zero = refl
      drop_nil (suc n) = refl
  drop-drop (suc a) b (x ∷ xs) =
      let z : suc a + b ≡ suc (a + b) = omega arith in rw z (drop-drop a b xs)

  drop_all : (n : ℕ) (xs : List BeatmapData) → length xs ≤ n → drop n xs ≡ []
  drop_all zero [] h = refl
  drop_all zero (x ∷ xs) h = absurd (ground arith)
  drop_all (suc n) [] h = refl
  drop_all (suc n) (x ∷ xs) h = drop_all n xs (omega arith)

  -- The last page: nothing is behind it.
  last_page :
      (start len : ℕ) (selection : List BeatmapData)
      → length selection ≤ start + len
      → map make_beatmap (take len (drop start selection)) ≡ map make_beatmap (drop start selection)
  last_page start len selection h =
      sym (append-nil (map make_beatmap (take len (drop start selection))))
      ∙ sym (
          ap (λ r. map make_beatmap (take len (drop start selection)) ++ map make_beatmap r)
            (drop-drop start len selection ∙ drop_all (start + len) selection h))
      ∙ take-drop len (drop start selection)

  -- All pages behind a start.
  scroll_from :
      (n k start : ℕ) (selection : List BeatmapData)
      → length selection ≤ start + n * suc k
      → scroll make_beatmap n start (suc k) selection ≡ map make_beatmap (drop start selection)
  unfolding scroll make_bundle loaded
  scroll_from zero k start selection h =
      let z : 0 * suc k ≡ 0 = ground arith in
      rw (drop_all start selection (omega (arith, h, z))) refl
  scroll_from (suc n) k start selection h =
      let l : suc n * suc k ≡ suc k + n * suc k = mul_suc n (suc k) in
      elim (Bool-cases (ltb (start + suc k) (length selection))) [
        | inl more ↦
            rw
              (
                more,
                page start k selection,
                scroll_from n k (start + suc k) selection (omega (arith, h, l)),
                ← drop-drop start (suc k) selection,
              )
              (take-drop (suc k) (drop start selection))
        | inr end ↦
            rw
              (
                end,
                page start k selection,
                append-nil (map make_beatmap (take (suc k) (drop start selection))),
              )
              (last_page start (suc k) selection (not_less (start + suc k) (length selection) end))
      ]
    where
      mul_suc : (a b : ℕ) → suc a * b ≡ b + a * b
      mul_suc a b = ground arith

      not_less : (a b : ℕ) → ltb a b ≡ false → b ≤ a
      not_less a b e = ground (arith, e)

  -- The table and the rows that are loaded when its end is reached are what is made of the
  -- selection, each beatmap once and in order: for a length of at least 1, and if the end is
  -- reached so many times that this many pages are enough for the selection.
  pub scroll-make_bundle :
      (n len : ℕ) (selection : List BeatmapData)
      → 0 < len
      → length selection ≤ n * len
      → scroll make_beatmap n 0 len selection ≡ map make_beatmap selection
  scroll-make_bundle n zero selection p h = absurd (ground arith)
  scroll-make_bundle n (suc k) selection p h = scroll_from n k 0 selection (omega arith)
