-- ===== src/Token/Equality.antt =====
-- The derived `PartialEq` of the token data.
use thinwallet.Prelude.{ℕ_discrete, Eq, bytes_eq}
use thinwallet.Token.{TokenState, TokenBinding}

TokenState-discrete : Discrete TokenState
TokenState-discrete = hlevel

instance unfoldable pub state_eq : Eq TokenState
unfolding TokenState-discrete
state_eq = record { dec = TokenState-discrete }

TokenBinding-discrete : Discrete TokenBinding
TokenBinding-discrete = hlevel ℕ_discrete

instance unfoldable pub binding_eq : Eq TokenBinding
unfolding TokenBinding-discrete ℕ_discrete
binding_eq = record { dec = TokenBinding-discrete }
