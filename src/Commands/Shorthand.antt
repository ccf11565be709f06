-- ===== src/Commands/Shorthand.antt =====
-- The argument of a command with a shorthand.
use tillerinobot.Prelude.{
  ℕ, ◌≤◌, ◌<◌, ◌≡◌, refl, true, false, none, some, [], ◌∷◌, ◌++◌, map, length, leb, arith, sym, All,
  subst,
}
use tillerinobot.Commands.{
  Text, Handled, to_lower, behind_alias, split_space, behind_name, with_shorthand,
}

-- The characters of the commands there are.
abbrev pub IsCommandChar : ℕ → Type 0
IsCommandChar c = (b'a' ≤ c) × (c ≤ b'z')

map-to_lower : (s : Text) → All IsCommandChar s → map to_lower s ≡ s
map-to_lower [] p = refl
map-to_lower (c ∷ s) p = ground (arith, map-to_lower s p.1)

map-append : (s t : Text) → All IsCommandChar s → map to_lower (s ++ t) ≡ s ++ map to_lower t
map-append [] t p = refl
map-append (c ∷ s) t p = ground (arith, map-append s t p.1)

far : (n : ℕ) → 2 < n → leb n 2 ≡ false
far n h = ground arith

near : (n : ℕ) → n ≤ 2 → leb n 2 ≡ true
near n h = ground arith

behind_alias-letter : (a b : ℕ) (s : Text) → IsCommandChar b → behind_alias a (a ∷ b ∷ s) ≡ none
behind_alias-letter a b s h = ground arith

split_space-append : (n t : Text) → All IsCommandChar n → split_space (n ++ b' ' ∷ t) ≡ some (n, t)
unfolding split_space
split_space-append [] t p = refl
split_space-append (c ∷ n) t p = ground (arith, split_space-append n t p.1)

module _ {ℓ} {S : Type ℓ} (distance : Text → Text → ℕ)
    (handle_argument : Text → Text → S → Handled × S) where
  -- Behind the whole command, in lower-case letters and at least two of them, and a space, the
  -- argument is handed on as it is, if the text with the argument is at a distance of more than 2
  -- from the command.
  pub with_shorthand-argument :
      (a b : ℕ) (name argument : Text) (s : S)
      → All IsCommandChar (a ∷ b ∷ name)
      → distance (a ∷ b ∷ name) (a ∷ b ∷ name) ≡ 0
      → 2 < distance (map to_lower (a ∷ b ∷ name ++ b' ' ∷ argument)) (a ∷ b ∷ name)
      → with_shorthand S distance handle_argument a (b ∷ name) (a ∷ b ∷ name ++ b' ' ∷ argument) s
        ≡ handle_argument (a ∷ b ∷ name ++ b' ' ∷ argument) argument s
  unfolding with_shorthand behind_name
  with_shorthand-argument a b name argument s p z h = rw (
    far (distance (map to_lower (a ∷ b ∷ name ++ b' ' ∷ argument)) (a ∷ b ∷ name)) h,
    behind_alias-letter a b (name ++ b' ' ∷ argument) (p.1).0,
    split_space-append (a ∷ b ∷ name) argument p,
    map-to_lower (a ∷ b ∷ name) p,
    z,
  )

  -- An argument of one character behind such a command is lost: with it, the text is still within
  -- a distance of 2 from the command, if the distance grows by no more than the length of what is
  -- appended.
  pub with_shorthand_loses :
      (a b c : ℕ) (name : Text) (s : S)
      → ((u v : Text) → distance (u ++ v) u ≤ length v)
      → All IsCommandChar (a ∷ b ∷ name)
      → with_shorthand S distance handle_argument a (b ∷ name) (a ∷ b ∷ name ++ b' ' ∷ c ∷ []) s
        ≡ handle_argument (a ∷ b ∷ name ++ b' ' ∷ c ∷ []) [] s
  unfolding with_shorthand
  with_shorthand_loses a b c name s g p = rw (
      near (distance (map to_lower (a ∷ b ∷ name ++ b' ' ∷ c ∷ [])) (a ∷ b ∷ name)) (
        subst (λ u. distance u (a ∷ b ∷ name) ≤ 2)
          (sym (map-append (a ∷ b ∷ name) (b' ' ∷ c ∷ []) p))
          (omega (arith, g (a ∷ b ∷ name) (b' ' ∷ to_lower c ∷ [])))))
