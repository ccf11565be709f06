-- ===== src/Chat/Response.antt =====
-- tillerinobot-model/src/main/java/org/tillerino/ppaddict/chat/GameChatResponse.java. A null
-- response is `none` of `Option`.
pub mod Laws
mod Tests
use tillerinobot.Prelude.{Bool, true, false, Option, none, some, List, [], ◌∷◌, ◌++◌, String}

mutual
  pub data Response : Type 0 where
    message success action : String → Response
    no_response : Response
    response_list : Responses → Response

  pub data Responses : Type 0 where
    nil : Responses
    cons : Response → Responses → Responses

abbrev pub to_list : Responses → List Response
to_list nil = []
to_list (cons r rs) = r ∷ to_list rs

abbrev pub of_list : List Response → Responses
of_list [] = nil
of_list (r ∷ rs) = cons r (of_list rs)

unfoldable pub is_none : Response → Bool
is_none no_response = true
is_none (message s) = false
is_none (success s) = false
is_none (action s) = false
is_none (response_list rs) = false

unfoldable pub flatten : Response → List Response
flatten no_response = []
flatten (response_list rs) = to_list rs
flatten (message s) = message s ∷ []
flatten (success s) = success s ∷ []
flatten (action s) = action s ∷ []

-- What `then` adds to the new list for one of its two responses.
abbrev parts : Response → List Response
parts (response_list rs) = to_list rs
parts (message s) = message s ∷ []
parts (success s) = success s ∷ []
parts (action s) = action s ∷ []
parts no_response = no_response ∷ []

then_nonnull : Response → Response → Response
then_nonnull r no_response = r
then_nonnull no_response r = r
then_nonnull r q = response_list (of_list (parts r ++ parts q))

-- `then`, with null as `none`.
unfoldable pub and_then : Response → Option Response → Response
unfolding then_nonnull
and_then r none = r
and_then r (some q) = then_nonnull r q
