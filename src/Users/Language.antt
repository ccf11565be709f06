-- ===== src/Users/Language.antt =====
-- The constants of
-- tillerinobot/src/main/java/tillerino/tillerinobot/lang/LanguageIdentifier.java. Those that are not
-- written in ASCII have the name of their class. The class of a constant is left to `Users.Data`.
use tillerinobot.Prelude.{
  ◌≡◌, refl, ℕ, Bool, true, some, List, [], ◌∷◌, get_elem?, ◌==◌, ap, arith, sym, ◌∙◌,
  some_injective, codes,
}

pub data LanguageIdentifier : Type 0 where
  default_ english tsundere tsundere_german italiano francais polski nederlands hebrew farsi
        portugues_br deutsch cestina magyar korean dansk turkce japanese espanol greek russian
        lietuviu portugues_pt svenska romana chinese_traditional bulgarian norsk indonesian
        chinese_simple catala slovenscina schwiizerdutsch slovencina vietnamese :
      LanguageIdentifier

-- `values()`.
abbrev pub values : List LanguageIdentifier
values =
    default_ ∷ english ∷ tsundere ∷ tsundere_german ∷ italiano ∷ francais ∷ polski ∷ nederlands
    ∷ hebrew ∷ farsi ∷ portugues_br ∷ deutsch ∷ cestina ∷ magyar ∷ korean ∷ dansk ∷ turkce
    ∷ japanese ∷ espanol ∷ greek ∷ russian ∷ lietuviu ∷ portugues_pt ∷ svenska ∷ romana
    ∷ chinese_traditional ∷ bulgarian ∷ norsk ∷ indonesian ∷ chinese_simple ∷ catala ∷ slovenscina
    ∷ schwiizerdutsch ∷ slovencina ∷ vietnamese ∷ []

abbrev pub ordinal : LanguageIdentifier → ℕ
ordinal default_ = 0
ordinal english = 1
ordinal tsundere = 2
ordinal tsundere_german = 3
ordinal italiano = 4
ordinal francais = 5
ordinal polski = 6
ordinal nederlands = 7
ordinal hebrew = 8
ordinal farsi = 9
ordinal portugues_br = 10
ordinal deutsch = 11
ordinal cestina = 12
ordinal magyar = 13
ordinal korean = 14
ordinal dansk = 15
ordinal turkce = 16
ordinal japanese = 17
ordinal espanol = 18
ordinal greek = 19
ordinal russian = 20
ordinal lietuviu = 21
ordinal portugues_pt = 22
ordinal svenska = 23
ordinal romana = 24
ordinal chinese_traditional = 25
ordinal bulgarian = 26
ordinal norsk = 27
ordinal indonesian = 28
ordinal chinese_simple = 29
ordinal catala = 30
ordinal slovenscina = 31
ordinal schwiizerdutsch = 32
ordinal slovencina = 33
ordinal vietnamese = 34

abbrev pub token : LanguageIdentifier → List ℕ
token default_ = codes "Default"
token english = codes "English"
token tsundere = codes "Tsundere"
token tsundere_german = codes "TsundereGerman"
token italiano = codes "Italiano"
token francais = codes "Français"
token polski = codes "Polski"
token nederlands = codes "Nederlands"
token hebrew = 1506 ∷ 1489 ∷ 1512 ∷ 1497 ∷ 1514 ∷ []
token farsi = codes "Farsi"
token portugues_br = codes "Português_BR"
token deutsch = codes "Deutsch"
token cestina = codes "Čeština"
token magyar = codes "Magyar"
token korean = codes "한국어"
token dansk = codes "Dansk"
token turkce = codes "Türkçe"
token japanese = codes "日本語"
token espanol = codes "Español"
token greek = codes "Ελληνικά"
token russian = codes "Русский"
token lietuviu = codes "Lietuvių"
token portugues_pt = codes "Português_PT"
token svenska = codes "Svenska"
token romana = codes "Romana"
token chinese_traditional = codes "繁體中文"
token bulgarian = codes "български"
token norsk = codes "Norsk"
token indonesian = codes "Indonesian"
token chinese_simple = codes "简体中文"
token catala = codes "Català"
token slovenscina = codes "Slovenščina"
token schwiizerdutsch = codes "Schwiizerdütsch"
token slovencina = codes "Slovenčina"
token vietnamese = codes "Tiếng Việt"

-- `==` of two constants.
abbrev pub same : LanguageIdentifier → LanguageIdentifier → Bool
same a b = ordinal a == ordinal b

-- The constants are listed by their ordinals.
pub values-ordinal : (l : LanguageIdentifier) → get_elem? values (ordinal l) ≡ some l
values-ordinal default_ = refl
values-ordinal english = refl
values-ordinal tsundere = refl
values-ordinal tsundere_german = refl
values-ordinal italiano = refl
values-ordinal francais = refl
values-ordinal polski = refl
values-ordinal nederlands = refl
values-ordinal hebrew = refl
values-ordinal farsi = refl
values-ordinal portugues_br = refl
values-ordinal deutsch = refl
values-ordinal cestina = refl
values-ordinal magyar = refl
values-ordinal korean = refl
values-ordinal dansk = refl
values-ordinal turkce = refl
values-ordinal japanese = refl
values-ordinal espanol = refl
values-ordinal greek = refl
values-ordinal russian = refl
values-ordinal lietuviu = refl
values-ordinal portugues_pt = refl
values-ordinal svenska = refl
values-ordinal romana = refl
values-ordinal chinese_traditional = refl
values-ordinal bulgarian = refl
values-ordinal norsk = refl
values-ordinal indonesian = refl
values-ordinal chinese_simple = refl
values-ordinal catala = refl
values-ordinal slovenscina = refl
values-ordinal schwiizerdutsch = refl
values-ordinal slovencina = refl
values-ordinal vietnamese = refl

pub same_lem : (a b : LanguageIdentifier) → same a b ≡ true → a ≡ b
same_lem a b h =
    let e : ordinal a ≡ ordinal b = ground (arith, h) in
    some_injective (sym (values-ordinal a) ∙ ap (get_elem? values) e ∙ values-ordinal b)
