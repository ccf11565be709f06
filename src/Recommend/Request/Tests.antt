-- ===== src/Recommend/Request/Tests.antt =====
-- Settings that users type.
use tillerinobot.Prelude.{ℕ, ◌≡◌, refl, true, false, none, some, [], ◌∷◌, codes, arith}
use tillerinobot.Recommend.Predicate.{Double, finite}
use tillerinobot.Recommend.Predicate
use tillerinobot.Recommend.Settings.{
  beta, Request, accepted, refused, invalid_setting, initial, split, is_mods_capable,
  mixed_nomod_and_mods,
}
use tillerinobot.Recommend.Request.{engine, parse_mods, parse_settings, parse_sampler_settings}
use tillerinobot.Recommend.Request.Sample.{library}
use tillerinobot.Recommend.Request.Verified.{Verified, parse_sampler_settings-Verified}
use tillerinobot.Recommend.Request.Order.{parse_settings-order}

abbrev requested : Request ℕ
requested = record initial { requested_mods = 64 }

dt_parsed : parse_mods library (codes "dt") initial ≡ some requested
unfolding parse_mods
dt_parsed = refl

no_engine : engine library (codes "dt") ≡ none
unfolding engine
no_engine = refl

beta_engine : engine library (codes "beta") ≡ some beta
unfolding engine
beta_engine = refl

beta_incapable : is_mods_capable beta ≡ false
unfolding is_mods_capable
beta_incapable = refl

-- "dt beta" and "beta dt".
parse_settings-order_example :
    (parse_settings library false (codes "dt" ∷ codes "beta" ∷ []) initial
      ≡ accepted (record requested { model = beta }))
    × (parse_settings library false (codes "beta" ∷ codes "dt" ∷ []) initial
        ≡ refused (invalid_setting (codes "dt")))
parse_settings-order_example =
    parse_settings-order library b'd' b'b' (codes "t") (codes "eta") beta requested no_engine
      (omega arith) dt_parsed beta_engine beta_incapable

abbrev donated : Request ℕ
donated = elim (parse_sampler_settings library true (codes "dt ar>8 succ ar<9")) [
  | accepted r ↦ r
  | refused e ↦ initial
]

donated_accepted :
    parse_sampler_settings library true (codes "dt ar>8 succ ar<9") ≡ accepted donated
unfolding parse_sampler_settings split parse_settings engine Predicate.build Predicate.contradicts
    Predicate.less Predicate.at_most
donated_accepted = refl

parse_sampler_settings-Verified_example : Verified library true donated
parse_sampler_settings-Verified_example =
    parse_sampler_settings-Verified library true (codes "dt ar>8 succ ar<9") donated
      donated_accepted

-- Refused: mods with "nomod", and predicates that exclude each other.
mixed : parse_sampler_settings library true (codes "dt nomod") ≡ refused mixed_nomod_and_mods
unfolding parse_sampler_settings split parse_settings engine
mixed = refl

not_a_donator :
    parse_sampler_settings library false (codes "ar>8") ≡ refused (invalid_setting (codes "ar>8"))
unfolding parse_sampler_settings split parse_settings engine
not_a_donator = refl
