-- ===== src/Frontend/Welcome/Search.antt =====
-- The regular expression of `showWelcomeIfNeeded` on the text of the cookies.
use tillerinobot.Prelude.{
  ℕ, ◌<◌, ◌≡◌, ◌≢◌, refl, Bool, true, false, Option, none, some, List, [], ◌∷◌, ◌++◌, if◌then◌else◌,
  arith, All, All-append, ap, ◌∙◌, sym,
}
use mathlib.Core.List.{append_assoc, append-nil}
use tillerinobot.Frontend.Welcome.{
  Cookie, same_text, cookie_name, pair, join, strip, before_semicolon, match_here, group, or_else,
  skip_space, match_behind, match_cookie,
}

-- The characters of a cookie's name and value that matter here.
abbrev pub IsNameChar : ℕ → Type 0
IsNameChar c = (c ≢ b';') × (c ≢ b'=') × (32 < c)

abbrev pub IsValueChar : ℕ → Type 0
IsValueChar c = c ≢ b';'

abbrev pub IsCookie : Cookie → Type 0
IsCookie c = All IsNameChar c.name × All IsValueChar c.value

-- The value of the cookie of a name, the first one if there are several.
unfoldable pub lookup : List ℕ → List Cookie → Option (List ℕ)
lookup name [] = none
lookup name (c ∷ cs) = if same_text name c.name then some c.value else lookup name cs

strip-name :
    (w n t : List ℕ)
    → All IsNameChar w
    → All IsNameChar n
    → strip (w ++ b'=' ∷ []) (n ++ b'=' ∷ t) ≡ (if same_text w n then some t else none)
unfolding strip same_text
strip-name [] [] t p q = refl
strip-name [] (d ∷ n) t p q = ground arith
strip-name (c ∷ w) [] t p q = ground arith
strip-name (c ∷ w) (d ∷ n) t p q = ground (arith, strip-name w n t p.1 q.1)

-- What may follow a cookie in the text.
abbrev IsEnd : List ℕ → Type 0
IsEnd [] = Unit
IsEnd (c ∷ s) = c ≡ b';'

before_semicolon-append :
    (v t : List ℕ) → All IsValueChar v → IsEnd t → before_semicolon (v ++ t) ≡ v
unfolding before_semicolon
before_semicolon-append [] [] p q = refl
before_semicolon-append [] (c ∷ t) p q = ground arith
before_semicolon-append (c ∷ v) t p q = ground (arith, before_semicolon-append v t p.1 q)

pub cookie_name_chars : All IsNameChar cookie_name
cookie_name_chars = omega arith

group-if :
    (b : Bool) (v t : List ℕ)
    → All IsValueChar v
    → IsEnd t
    → group (if b then some (v ++ t) else none) ≡ (if b then some v else none)
unfolding group
group-if true v t p q = ap some (before_semicolon-append v t p q)
group-if false v t p q = refl

match_here-pair :
    (c : Cookie) (t : List ℕ)
    → IsCookie c
    → IsEnd t
    → match_here (pair c ++ t) ≡ (if same_text cookie_name c.name then some c.value else none)
unfolding match_here
match_here-pair c t p q =
    ap (λ s. group (strip (cookie_name ++ b'=' ∷ []) s)) (append_assoc c.name (b'=' ∷ c.value) t)
    ∙ ap group (strip-name cookie_name c.name (c.value ++ t) cookie_name_chars p.0)
    ∙ group-if (same_text cookie_name c.name) c.value t p.1 q

match_behind-skip : (s t : List ℕ) → All IsValueChar s → match_behind (s ++ t) ≡ match_behind t
unfolding match_behind
match_behind-skip [] t p = refl
match_behind-skip (c ∷ s) t p = ground (arith, match_behind-skip s t p.1)

name-IsValueChar : (n : List ℕ) → All IsNameChar n → All IsValueChar n
name-IsValueChar [] p = tt
name-IsValueChar (c ∷ n) p = ((p.0).0, name-IsValueChar n p.1)

pair-IsValueChar : (c : Cookie) → IsCookie c → All IsValueChar (pair c)
pair-IsValueChar c p =
    All-append IsValueChar c.name (b'=' ∷ c.value) (name-IsValueChar c.name p.0) (omega arith, p.1)

or_else-if :
    (b : Bool) (v : List ℕ) (o : Option (List ℕ))
    → or_else (if b then some v else none) o ≡ (if b then some v else o)
unfolding or_else
or_else-if true v o = refl
or_else-if false v o = refl

match_cookie-pair :
    (c : Cookie) (t : List ℕ)
    → IsCookie c
    → IsEnd t
    → match_cookie (pair c ++ t)
      ≡ (if same_text cookie_name c.name then some c.value else match_behind t)
unfolding match_cookie
match_cookie-pair c t p q =
    ap (or_else (match_here (pair c ++ t))) (match_behind-skip (pair c) t (pair-IsValueChar c p))
    ∙ ap (λ o. or_else o (match_behind t)) (match_here-pair c t p q)
    ∙ or_else-if (same_text cookie_name c.name) c.value (match_behind t)

skip_space-text : (n v : List ℕ) → All IsNameChar n → skip_space (n ++ b'=' ∷ v) ≡ n ++ b'=' ∷ v
unfolding skip_space
skip_space-text [] v p = refl
skip_space-text (c ∷ n) v p = ground arith

skip_space-join :
    (c : Cookie) (cs : List Cookie) → IsCookie c → skip_space (join (c ∷ cs)) ≡ join (c ∷ cs)
unfolding join
skip_space-join c [] p = skip_space-text c.name c.value p.0
skip_space-join c (d ∷ cs) p =
    let s = b';' ∷ b' ' ∷ join (d ∷ cs) in
    ap skip_space (append_assoc c.name (b'=' ∷ c.value) s)
    ∙ skip_space-text c.name (c.value ++ s) p.0
    ∙ sym (append_assoc c.name (b'=' ∷ c.value) s)

match_behind-next :
    (s : List ℕ) → skip_space s ≡ s → match_behind (b';' ∷ b' ' ∷ s) ≡ match_cookie s
unfolding match_behind match_cookie skip_space
match_behind-next s h = ap (λ t. or_else (match_here t) (match_behind s)) h

-- The text of the cookies is searched cookie by cookie.
pub match_cookie-join :
    (cs : List Cookie) → All IsCookie cs → match_cookie (join cs) ≡ lookup cookie_name cs
unfolding match_cookie match_here match_behind lookup group strip join or_else
match_cookie-join [] p = refl
match_cookie-join (c ∷ []) p =
    ap match_cookie (sym (append-nil (pair c))) ∙ match_cookie-pair c [] p.0 tt
match_cookie-join (c ∷ d ∷ cs) p =
    match_cookie-pair c _ p.0 refl
    ∙ ap (λ o. if same_text cookie_name c.name then some c.value else o)
        (match_behind-next (join (d ∷ cs)) (skip_space-join d cs (p.1).0)
          ∙ match_cookie-join (d ∷ cs) p.1)
