-- ===== src/Site/Comments/Tests.antt =====
-- Numbers written as tallies; comments on beatmap 2 with mods 0 and on beatmap 1 with mods 3.
use tillerinobot.Prelude.{
  ◌≡◌, refl, ap, sym, subst, ◌∙◌, some_injective, ℕ, zero, suc, List, [], ◌∷◌, ◌++◌, Option, some,
  none, true, false, length, inl,
}
use tillerinobot.Site.Comments.{
  Text, Comment, found, before, starts_with, split_dash, behind_two, key, to_string, parse_comment,
  read_first, tail_set, get_comment, add, add_comment, put_old, put_first, put_beatmap_comment,
}
use tillerinobot.Site.Comments.Keyed.{keyed}
use tillerinobot.Site.Comments.Reads.{NoDash, Valid}
use tillerinobot.Site.Comments.Puts.{put_beatmap_comment-Valid, get_comment-put_beatmap_comment}

abbrev tally : ℕ → Text
tally zero = []
tally (suc n) = b'1' ∷ tally n

abbrev parse_tally : Text → Option ℕ
parse_tally s = some (length s)

tally-NoDash : (n : ℕ) → NoDash (tally n)
tally-NoDash zero = tt
tally-NoDash (suc n) = (refl, tally-NoDash n)

length-tally : (n : ℕ) → length (tally n) ≡ n
length-tally zero = refl
length-tally (suc n) = ap suc (length-tally n)

parse_tally_lem : (n : ℕ) → parse_tally (tally n) ≡ some n
parse_tally_lem n = ap some (length-tally n)

abbrev good : Comment
good = record { text = b'g' ∷ b'g' ∷ []; date = 5 }

abbrev notes : List Text
notes = (key tally parse_tally 2 0 ++ to_string tally parse_tally good) ∷ []

put_note :
    put_beatmap_comment tally parse_tally 5 2 0 (b'g' ∷ b'g' ∷ []) (some []) ≡ (false, some notes)
unfolding put_beatmap_comment put_old get_comment tail_set read_first add_comment add to_string key
put_note = refl

notes-Valid : Valid tally parse_tally tally-NoDash parse_tally_lem notes
unfolding keyed
notes-Valid =
    let (zs, e, v) =
      put_beatmap_comment-Valid tally parse_tally tally-NoDash parse_tally_lem 5 2 0
        (b'g' ∷ b'g' ∷ []) [] (tt, λ id mods. inl refl) in
    subst (Valid tally parse_tally tally-NoDash parse_tally_lem)
      (some_injective (sym (ap (λ r. r.1) e) ∙ ap (λ r. r.1) put_note)) v

get_note : get_comment tally parse_tally (some notes) 2 0 ≡ found good
unfolding get_comment tail_set read_first starts_with before key to_string parse_comment behind_two
    split_dash
get_note = refl

put_first_note : put_beatmap_comment tally parse_tally 7 1 3 (b'x' ∷ []) none ≡ (true, some [])
unfolding put_beatmap_comment put_first
put_first_note = refl

put_beatmap_comment-Valid_example :
    (zs : List Text) × (put_beatmap_comment tally parse_tally 7 1 3 (b'x' ∷ b'-' ∷ []) (some notes)
      ≡ (false, some zs))
    × Valid tally parse_tally tally-NoDash parse_tally_lem zs
put_beatmap_comment-Valid_example =
    put_beatmap_comment-Valid tally parse_tally tally-NoDash parse_tally_lem 7 1 3
      (b'x' ∷ b'-' ∷ []) notes notes-Valid

get_comment-put_beatmap_comment_example :
    get_comment tally parse_tally
      (put_beatmap_comment tally parse_tally 7 2 0 (b'x' ∷ b'-' ∷ []) (some notes)).1
      2
      0
    ≡ found (record { text = b'x' ∷ b'-' ∷ []; date = 7 })
get_comment-put_beatmap_comment_example =
    get_comment-put_beatmap_comment tally parse_tally tally-NoDash parse_tally_lem 7 2 0 2 0
      (b'x' ∷ b'-' ∷ []) notes notes-Valid
