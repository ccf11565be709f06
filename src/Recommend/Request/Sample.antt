-- ===== src/Recommend/Request/Sample.antt =====
-- A library for tests, which knows "dt" and "hd", and finds only equal texts near.
use tillerinobot.Prelude.{
  ℕ, ◌+◌, ◌-◌, not, Option, none, some, List, [], ◌∷◌, codes, if◌then◌else◌, ◌==◌, bit_and,
}
use tillerinobot.Prelude.Int.{pos}
use tillerinobot.Recommend.Predicate.{Double, finite}
use tillerinobot.Recommend.Settings.{Library, same}

abbrev pub digit : List ℕ → Option Double
digit (c ∷ []) = some (finite (pos (c - b'0')))
digit _ = none

abbrev pub library : Library ℕ
library = record {
  distance = λ s t. if same s t then 0 else 9;
  to_lower_case = λ s. s;
  to_upper_case = λ s. s;
  parse_double = digit;
  from_short_names_continuous =
      λ s. if same s (codes "dt") then some 64 else if same s (codes "hd") then some 8 else none;
  from_short_name = λ s. if same s (codes "dt") then some 64 else none;
  fix_nc = λ m. m;
  requestable = 1370;
  get_mods = λ m. m ∷ [];
  add = ◌+◌;
  is = λ m mods. not (bit_and m mods == 0);
}
