-- ===== src/Auth/Callbacks.antt =====
-- Any number of runs of the `jwt` callback, one after the other.
use edge_guardian.Base.{ℕ, Option, List, [], ◌∷◌}
use edge_guardian.Http.{HttpRequest}
use edge_guardian.Auth.{Account, Answer, Config, Token, jwt}

-- One run of the `jwt` callback: the clock before and after Keycloak's answer, what Keycloak answers,
-- and the account at a sign-in.
pub record Callback : Type 0 where
  pub now : ℕ
  pub later : ℕ
  pub exchange : HttpRequest → Answer
  pub account : Option Account

unfoldable pub after : Config → List Callback → Token → Token
after c [] t = t
after c (x ∷ xs) t = after c xs (jwt c x.exchange x.now x.later t x.account)
