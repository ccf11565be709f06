-- ===== src/Exceptions.antt =====
-- What Java throws, as far as tillerinobot tells it apart: the classes that IRCBot.java names and
-- the static methods `isTimeout` and `isExternalException` of
-- tillerinobot/src/main/java/tillerino/tillerinobot/IRCBot.java. Messages are lists of code points.
use tillerinobot.Prelude.{
  ℕ, Bool, true, false, ◌&&◌, ◌||◌, Option, some, List, [], ◌∷◌, String, leb, ◌==◌, codes,
}

pub data Exception : Type 0 where
  interrupted : Exception
  execution : Exception → Exception
  user_exception : String → Exception
  socket_timeout : Exception
  io_exception : Option (List ℕ) → Exception
  sql_exception sql_recoverable : Exception
  -- `MaintenanceException` is a `ServiceUnavailableException`, and that a `WebApplicationException`
  maintenance service_unavailable : Exception
  web_application : ℕ → Exception
  -- any other `RuntimeException`, and an `Error`
  runtime error : Exception

pub starts_with : List ℕ → List ℕ → Bool
starts_with [] s = true
starts_with (p ∷ ps) [] = false
starts_with (p ∷ ps) (c ∷ s) = p == c && starts_with ps s

abbrev pub timeout_prefixes : List String
timeout_prefixes =
    "Premature EOF" ∷ "Remote host terminated the handshake for https://osu.ppy.sh/api/"
    ∷ "Error writing to server for https://osu.ppy.sh/api/"
    ∷ "Unexpected end of file from server for https://osu.ppy.sh/api/"
    ∷ "Broken pipe for https://osu.ppy.sh/api/" ∷ "response code 502 for https://osu.ppy.sh/api/"
    ∷ "response code 503 for https://osu.ppy.sh/api/"
    ∷ "response code 520 for https://osu.ppy.sh/api/"
    ∷ "response code 525 for https://osu.ppy.sh/api/"
    ∷ "Connection reset for https://osu.ppy.sh/api/" ∷ []

pub starts_with_any : List String → List ℕ → Bool
unfolding starts_with
starts_with_any [] s = false
starts_with_any (p ∷ ps) s = starts_with (codes p) s || starts_with_any ps s

pub is_timeout : Exception → Bool
unfolding starts_with_any
is_timeout socket_timeout = true
is_timeout (io_exception (some text)) = starts_with_any timeout_prefixes text
is_timeout _ = false

-- The status of a `MaintenanceException` and of a `ServiceUnavailableException` is 503.
pub is_external : Exception → Bool
is_external (web_application code) = code == 502 || code == 504 || leb 520 code && leb code 527
is_external _ = false

-- Of class `IOException`.
pub is_io : Exception → Bool
is_io socket_timeout = true
is_io (io_exception text) = true
is_io _ = false
