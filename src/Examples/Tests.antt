-- ===== src/Examples/Tests.antt =====
-- Runs of the servers of examples/.
use kinz.Base.{◌≡◌, false, List, [], ◌∷◌}
use kinz.Codec.{Message, new_message}
use kinz.Examples.Auth.{token, session, replies, session_lem}

-- A ping, a login, and a ping again.
abbrev messages : List Message
messages = new_message 1 (104 ∷ []) ∷ new_message 0 token ∷ new_message 1 (104 ∷ []) ∷ []

session_lem_example : session false 7 messages ≡ replies false messages
session_lem_example = session_lem 7 messages
