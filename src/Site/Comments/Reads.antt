-- ===== src/Site/Comments/Reads.antt =====
-- What is read once a comment has been put.
use tillerinobot.Prelude.{
  ◌≡◌, ◌≢◌, ◌⊎◌, inl, inr, refl, sym, ap, ◌∙◌, ℕ, ◌==◌, List, [], ◌∷◌, ◌++◌, All, true, false,
  Option, some, some_injective, Bool-cases, arith,
}
use mathlib.Core.List.{append_assoc}
use tillerinobot.Site.Comments.{
  Text, Comment, null, found, starts_with, split_dash, behind_two, key, to_string, parse_comment,
  get_comment,
}
use tillerinobot.Site.Comments.Ordering.{starts_with_cases, eq_self}
use tillerinobot.Site.Comments.Keyed.{Sorted, keyed, read_keyed, read_first-tail_set}

abbrev pub NoDash : Text → Type 0
NoDash a = All (λ c. (c == b'-') ≡ false) a

split_dash-append : (a s : Text) → NoDash a → split_dash (a ++ (b'-' ∷ s)) ≡ some (a, s)
unfolding split_dash
split_dash-append [] s h = refl
split_dash-append (c ∷ a) s h = rw (h.0, split_dash-append a s h.1) refl

pub starts_with-append : (p s : Text) → starts_with p (p ++ s) ≡ true
unfolding starts_with
starts_with-append [] s = refl
starts_with-append (c ∷ p) s = rw (eq_self c, starts_with-append p s) refl

-- Up to the first dash the prefix and the text are the same.
starts_with_dash :
    (a b p s : Text)
    → NoDash a
    → NoDash b
    → starts_with (a ++ (b'-' ∷ p)) (b ++ (b'-' ∷ s)) ≡ true
    → (a ≡ b) × (starts_with p s ≡ true)
starts_with_dash [] [] p s h k e = (refl, (starts_with_cases b'-' b'-' p s e).1)
starts_with_dash [] (d ∷ b) p s h k e =
    let i = starts_with_cases b'-' d p (b ++ (b'-' ∷ s)) e in absurd (ground (arith, i, k))
starts_with_dash (c ∷ a) [] p s h k e =
    let i = starts_with_cases c b'-' (a ++ (b'-' ∷ p)) s e in absurd (ground (arith, i, h))
starts_with_dash (c ∷ a) (d ∷ b) p s h k e =
    let i = starts_with_cases c d (a ++ (b'-' ∷ p)) (b ++ (b'-' ∷ s)) e in
    let rest = starts_with_dash a b p s h.1 k.1 i.1 in
    (ap (λ x. x ∷ a) i.0 ∙ ap (λ x. d ∷ x) rest.0, rest.1)

module _ (decimal : ℕ → Text) (parse_long : Text → Option ℕ)
    (no_dash : (n : ℕ) → NoDash (decimal n))
    (parse : (n : ℕ) → parse_long (decimal n) ≡ some n) where
  decimal_injective : (m n : ℕ) → decimal m ≡ decimal n → m ≡ n
  decimal_injective m n e = some_injective (sym (parse m) ∙ ap parse_long e ∙ parse n)

  key-append :
      (id mods : ℕ) (r : Text)
      → key decimal parse_long id mods ++ r ≡ decimal id ++ (b'-' ∷ (decimal mods ++ (b'-' ∷ r)))
  unfolding key
  key-append id mods r =
      append_assoc (decimal id) (b'-' ∷ (decimal mods ++ (b'-' ∷ []))) r
      ∙ ap (λ t. decimal id ++ (b'-' ∷ t)) (append_assoc (decimal mods) (b'-' ∷ []) r)

  behind_two-key : (id mods : ℕ) (r : Text) → behind_two (key decimal parse_long id mods ++ r) ≡ r
  unfolding behind_two
  behind_two-key id mods r =
      rw
        (
          key-append id mods r,
          behind_two,
          split_dash-append (decimal id) (decimal mods ++ (b'-' ∷ r)) (no_dash id),
          split_dash-append (decimal mods) r (no_dash mods),
        )
        refl

  parse_comment-to_string :
      (c : Comment) → parse_comment decimal parse_long (to_string decimal parse_long c) ≡ found c
  unfolding parse_comment to_string
  parse_comment-to_string c =
      rw
        (
          parse_comment,
          to_string,
          split_dash-append (decimal c.date) c.text (no_dash c.date),
          parse c.date,
        )
        refl

  key_lem :
      (i m : ℕ) → key decimal parse_long i m ≡ decimal i ++ (b'-' ∷ (decimal m ++ (b'-' ∷ [])))
  unfolding key
  key_lem i m = refl

  starts_with-key :
      (id mods id1 mods1 : ℕ) (r : Text)
      → starts_with (key decimal parse_long id mods) (key decimal parse_long id1 mods1 ++ r) ≡ true
      → (id ≡ id1) × (mods ≡ mods1)
  starts_with-key id mods id1 mods1 r h =
      let one =
        starts_with_dash (decimal id) (decimal id1) (decimal mods ++ (b'-' ∷ []))
          (decimal mods1 ++ (b'-' ∷ r)) (no_dash id) (no_dash id1)
          (sym (
              ap (λ t. starts_with t (decimal id1 ++ (b'-' ∷ (decimal mods1 ++ (b'-' ∷ r)))))
                (key_lem id mods))
            ∙ sym (ap (starts_with (key decimal parse_long id mods)) (key-append id1 mods1 r))
            ∙ h) in
      let two =
        starts_with_dash (decimal mods) (decimal mods1) [] r (no_dash mods) (no_dash mods1) one.1 in
      (decimal_injective id id1 one.0, decimal_injective mods mods1 two.0)

  -- The entries of another beatmap do not start with the key of one.
  pub key_other :
      (id mods id1 mods1 : ℕ) (r : Text)
      → (id ≢ id1) ⊎ (mods ≢ mods1)
      → starts_with (key decimal parse_long id mods) (key decimal parse_long id1 mods1 ++ r) ≡ false
  key_other id mods id1 mods1 r d =
      elim (Bool-cases
        (starts_with (key decimal parse_long id mods) (key decimal parse_long id1 mods1 ++ r))) [
          | inl t ↦
              let e = starts_with-key id mods id1 mods1 r t in
              elim d [ inl n ↦ absurd (n e.0) | inr n ↦ absurd (n e.1) ]
          | inr f ↦ f
        ]

  -- At most one entry for a beatmap.
  abbrev pub OneComment : List Text → ℕ → ℕ → Type 0
  OneComment xs id mods =
      (keyed (key decimal parse_long id mods) xs ≡ [])
      ⊎ ((c : Comment) × (keyed (key decimal parse_long id mods) xs
            ≡ (key decimal parse_long id mods ++ to_string decimal parse_long c) ∷ []))

  -- A set with at most one entry for each beatmap.
  abbrev pub Valid : List Text → Type 0
  Valid xs = Sorted xs × ((id mods : ℕ) → OneComment xs id mods)

  pub get_keyed :
      (xs : List Text) (id mods : ℕ)
      → Sorted xs
      → get_comment decimal parse_long (some xs) id mods
        ≡ read_keyed decimal parse_long (keyed (key decimal parse_long id mods) xs)
  unfolding get_comment
  get_keyed xs id mods h =
      read_first-tail_set decimal parse_long (key decimal parse_long id mods) xs h

  pub get_none :
      (xs : List Text) (id mods : ℕ)
      → Sorted xs
      → keyed (key decimal parse_long id mods) xs ≡ []
      → get_comment decimal parse_long (some xs) id mods ≡ null
  get_none xs id mods h e = get_keyed xs id mods h ∙ ap (read_keyed decimal parse_long) e

  pub get_one :
      (xs : List Text) (id mods : ℕ) (c : Comment)
      → Sorted xs
      → keyed (key decimal parse_long id mods) xs
        ≡ (key decimal parse_long id mods ++ to_string decimal parse_long c) ∷ []
      → get_comment decimal parse_long (some xs) id mods ≡ found c
  get_one xs id mods c h e =
      get_keyed xs id mods h
      ∙ ap (read_keyed decimal parse_long) e
      ∙ ap (parse_comment decimal parse_long)
          (behind_two-key id mods (to_string decimal parse_long c))
      ∙ parse_comment-to_string c
