-- ===== src/Chat/Response/Tests.antt =====
-- The laws of joined responses at concrete ones.
use tillerinobot.Prelude.{[], ◌∷◌}
use tillerinobot.Chat.Response.{Response, message, success, response_list, of_list}

abbrev hello : Response
hello = message "hello"

abbrev both : Response
both = response_list (of_list (hello ∷ success "done" ∷ []))
