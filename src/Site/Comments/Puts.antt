-- ===== src/Site/Comments/Puts.antt =====
-- What is read once a comment has been put.
use tillerinobot.Prelude.{
  ◌==◌, true, ◌&&◌, if◌then◌else◌, ◌≡◌, ◌≢◌, ◌⊎◌, inl, inr, refl, sym, ap, ◌∙◌, ℕ, List, [], ◌∷◌,
  ◌++◌, false, Option, some, arith,
}
use tillerinobot.Site.Comments.{
  Text, Comment, Reading, null, found, add, remove, key, to_string, get_comment, add_comment,
  put_old, put_beatmap_comment,
}
use tillerinobot.Site.Comments.Keyed.{
  Sorted, keyed, add-Sorted, remove-Sorted, keyed-add, keyed-remove, keyed-add_other,
  keyed-remove_other, read_keyed,
}
use tillerinobot.Site.Comments.Reads.{
  NoDash, Valid, OneComment, key_other, starts_with-append, get_none, get_one, get_keyed,
}

module _ (decimal : ℕ → Text) (parse_long : Text → Option ℕ)
    (no_dash : (n : ℕ) → NoDash (decimal n))
    (parse : (n : ℕ) → parse_long (decimal n) ≡ some n) where
  abbrev pub k : ℕ → ℕ → Text
  k id mods = key decimal parse_long id mods

  -- A set without the comment on a beatmap, and with all others.
  record Cleared (id mods : ℕ) (xs ys : List Text) : Type 0 where
    pub sorted : Sorted ys
    pub gone : keyed (k id mods) ys ≡ []
    pub others :
        (id1 mods1 : ℕ)
        → (id1 ≢ id) ⊎ (mods1 ≢ mods)
        → keyed (k id1 mods1) ys ≡ keyed (k id1 mods1) xs

  -- The new comment is put in a set without the old one.
  put-Cleared :
      (now id mods : ℕ) (comment : Text) (xs : List Text)
      → Valid decimal parse_long no_dash parse xs
      → (ys : List Text) × Cleared id mods xs ys
        × (put_beatmap_comment decimal parse_long now id mods comment (some xs)
            ≡ (false, some (add_comment decimal parse_long (k id mods) now comment ys)))
  unfolding put_beatmap_comment put_old
  put-Cleared now id mods comment xs v = elim (v.1 id mods) [
    | inl e ↦ (
      xs,
      record { sorted = v.0; gone = e; others = λ i m d. refl },
      ap (λ r. put_old decimal parse_long (k id mods) now comment r xs)
          (get_none decimal parse_long no_dash parse xs id mods v.0 e),
    )
    | inr (c, e) ↦
        let old = k id mods ++ to_string decimal parse_long c in
        (
          remove old xs,
          record {
            sorted = remove-Sorted old xs v.0;
            gone =
                keyed-remove (k id mods) old xs
                  (starts_with-append (k id mods) (to_string decimal parse_long c)) e;
            others = λ i m d. keyed-remove_other (k i m) old xs (
                key_other decimal parse_long no_dash parse i m id mods
                  (to_string decimal parse_long c) d);
          },
          ap (λ r. put_old decimal parse_long (k id mods) now comment r xs)
              (get_one decimal parse_long no_dash parse xs id mods c v.0 e),
        )
  ]

  -- What is to be read behind a put.
  abbrev pub given : ℕ → Text → Reading
  given now [] = null
  given now (c ∷ text) = found (record { text = c ∷ text; date = now })

  record Added (now id mods : ℕ) (comment : Text) (xs zs : List Text) : Type 0 where
    pub sorted : Sorted zs
    pub here : get_comment decimal parse_long (some zs) id mods ≡ given now comment
    pub one : OneComment decimal parse_long no_dash parse zs id mods
    pub others :
        (id1 mods1 : ℕ)
        → (id1 ≢ id) ⊎ (mods1 ≢ mods)
        → keyed (k id1 mods1) zs ≡ keyed (k id1 mods1) xs

  Cleared-Added :
      (now id mods : ℕ) (comment : Text) (xs ys : List Text)
      → Cleared id mods xs ys
      → Added now id mods comment xs (add_comment decimal parse_long (k id mods) now comment ys)
  unfolding add_comment
  Cleared-Added now id mods [] xs ys c = record {
    sorted = c.sorted;
    here = get_none decimal parse_long no_dash parse ys id mods c.sorted c.gone;
    one = inl c.gone;
    others = c.others;
  }
  Cleared-Added now id mods (t ∷ text) xs ys c =
      let comment : Comment = record { text = t ∷ text; date = now } in
      let new = k id mods ++ to_string decimal parse_long comment in
      let alone =
        keyed-add (k id mods) new ys
          (starts_with-append (k id mods) (to_string decimal parse_long comment)) c.gone in
      record {
        sorted = add-Sorted new ys c.sorted;
        here =
            get_one decimal parse_long no_dash parse (add new ys) id mods comment
              (add-Sorted new ys c.sorted) alone;
        one = inr (comment, alone);
        others = λ i m d.
            keyed-add_other (k i m) new ys (
              key_other decimal parse_long no_dash parse i m id mods
                (to_string decimal parse_long comment) d)
            ∙ c.others i m d;
      }

  put-Added :
      (now id mods : ℕ) (comment : Text) (xs : List Text)
      → Valid decimal parse_long no_dash parse xs
      → (zs : List Text) × Added now id mods comment xs zs
        × (put_beatmap_comment decimal parse_long now id mods comment (some xs) ≡ (false, some zs))
  put-Added now id mods comment xs v =
      let (ys, c, e) = put-Cleared now id mods comment xs v in
      (
        add_comment decimal parse_long (k id mods) now comment ys,
        Cleared-Added now id mods comment xs ys c,
        e,
      )

  same_beatmap :
      (id mods id1 mods1 : ℕ) → ((id1 ≢ id) ⊎ (mods1 ≢ mods)) ⊎ ((id1 ≡ id) × (mods1 ≡ mods))
  same_beatmap id mods id1 mods1 = ground arith

  -- Where the user has a set of comments in its order with at most one comment on each beatmap, a
  -- put throws no exception and leaves such a set, provided that digits have no dash and are parsed
  -- to their number.
  pub put_beatmap_comment-Valid :
      (now id mods : ℕ) (comment : Text) (xs : List Text)
      → Valid decimal parse_long no_dash parse xs
      → (zs : List Text) × (put_beatmap_comment decimal parse_long now id mods comment (some xs)
          ≡ (false, some zs))
        × Valid decimal parse_long no_dash parse zs
  put_beatmap_comment-Valid now id mods comment xs v =
      let (zs, a, e) = put-Added now id mods comment xs v in
      (
        zs,
        e,
        (
          a.sorted,
          λ i m. elim (same_beatmap id mods i m) [
            | inl d ↦ rw (a.others i m d) (v.1 i m)
            | inr s ↦ rw (s.0, s.1) a.one
          ],
        ),
      )

  is_other :
      (id mods id1 mods1 : ℕ) → (id1 ≢ id) ⊎ (mods1 ≢ mods) → (id1 == id && mods1 == mods) ≡ false
  is_other id mods id1 mods1 d = ground (arith, d)

  is_same :
      (id mods id1 mods1 : ℕ) → (id1 ≡ id) × (mods1 ≡ mods) → (id1 == id && mods1 == mods) ≡ true
  is_same id mods id1 mods1 s = ground (arith, s)

  read_others :
      (now id mods id1 mods1 : ℕ) (comment : Text) (xs zs : List Text)
      → Sorted xs
      → Added now id mods comment xs zs
      → (id1 ≢ id) ⊎ (mods1 ≢ mods)
      → get_comment decimal parse_long (some zs) id1 mods1
        ≡ get_comment decimal parse_long (some xs) id1 mods1
  read_others now id mods id1 mods1 comment xs zs h a d =
      get_keyed decimal parse_long no_dash parse zs id1 mods1 a.sorted
      ∙ ap (read_keyed decimal parse_long) (a.others id1 mods1 d)
      ∙ sym (get_keyed decimal parse_long no_dash parse xs id1 mods1 h)

  -- Behind a put the comment that was put is read for its beatmap, with the time of the put, or none
  -- if it was empty, and for every other beatmap what was read before; from a set in its order with
  -- at most one comment on each beatmap, provided that digits have no dash and are parsed to their
  -- number.
  pub get_comment-put_beatmap_comment :
      (now id mods id1 mods1 : ℕ) (comment : Text) (xs : List Text)
      → Valid decimal parse_long no_dash parse xs
      → get_comment decimal parse_long
          (put_beatmap_comment decimal parse_long now id mods comment (some xs)).1
          id1
          mods1
        ≡ (if id1 == id && mods1 == mods
            then given now comment
            else get_comment decimal parse_long (some xs) id1 mods1)
  get_comment-put_beatmap_comment now id mods id1 mods1 comment xs v =
      let (zs, a, e) = put-Added now id mods comment xs v in
      ap (λ r. get_comment decimal parse_long r.1 id1 mods1) e
      ∙ elim (same_beatmap id mods id1 mods1) [
        | inl d ↦
            rw (is_other id mods id1 mods1 d)
              (read_others now id mods id1 mods1 comment xs zs v.0 a d)
        | inr s ↦ rw (is_same id mods id1 mods1 s, s.0, s.1) a.here
      ]
